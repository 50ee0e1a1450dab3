-- ===== src/ErrorMap.antt =====
-- error_map.h and error_map.cpp: the texts of the error numbers. `errno` constants have their values
-- on Linux, `EPERM` 1 to `ERANGE` 34.
pub mod Domain
mod Tests
use Prim.Native.String.{String}
use nonblocking_io.Common.{ℕ, Option, List, [], ◌∷◌, lookup, insert_all}

-- The pairs in the order of the constructor's calls of `insert`; the first stands there twice.
abbrev pub error_entries : List (ℕ × String)
error_entries =
    (1, "EPERM: Operation not permitted")
    ∷ (1, "EPERM: Operation not permitted")
    ∷ (2, "ENOENT: No such file or directory")
    ∷ (3, "ESRCH: No suchprocess")
    ∷ (4, "EINTR: Interrupted system call")
    ∷ (5, "EIO: I/O error")
    ∷ (6, "ENXIO: No such device or address")
    ∷ (7, "E2BIG: Argument list too long")
    ∷ (8, "ENOEXEC: Exec format error")
    ∷ (9, "EBADF: Bad file number")
    ∷ (10, "ECHILD: No child processes")
    ∷ (11, "EAGAIN: Try again")
    ∷ (12, "ENOMEM: Out of memory")
    ∷ (13, "EACCES: Permission denied")
    ∷ (14, "EFAULT: Bad address")
    ∷ (15, "ENOTBLK: Block device required")
    ∷ (16, "EBUSY: Device or resource busy")
    ∷ (17, "EEXIST: File exists")
    ∷ (18, "EXDEV: Cross-device link")
    ∷ (19, "ENODEV: No such device")
    ∷ (20, "ENOTDIR: Not a directory")
    ∷ (21, "EISDIR: Is a directory")
    ∷ (22, "EINVAL: Invalid argument")
    ∷ (23, "ENFILE: File table overflow")
    ∷ (24, "EMFILE: Too many open files")
    ∷ (25, "ENOTTY: Not a typewriter")
    ∷ (26, "ETXTBSY: Text file busy")
    ∷ (27, "EFBIG: File too large")
    ∷ (28, "ENOSPC: No space left on device")
    ∷ (29, "ESPIPE: Illegal seek")
    ∷ (30, "EROFS: Read-only file system")
    ∷ (31, "EMLINK: Too many links")
    ∷ (32, "EPIPE: Broken pipe")
    ∷ (33, "EDOM: Math argument out of domain of func")
    ∷ (34, "ERANGE: Math result not representable")
    ∷ []

-- `error_map_`
unfoldable pub error_map : List (ℕ × String)
error_map = insert_all error_entries []

-- `errmap.find(code)`
unfoldable pub errmap_find : ℕ → Option String
errmap_find code = lookup code error_map
