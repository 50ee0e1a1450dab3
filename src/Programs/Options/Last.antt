-- ===== src/Programs/Options/Last.antt =====
-- Of several options of one kind the last one counts.
use Prim.Native.Nat.{max}
use nonblocking_io.Common.{
  ℕ, ◌^◌, ◌%◌, ◌≡◌, refl, ap, ◌∙◌, Option, none, some, List, [], ◌∷◌, Bool, true, ◌&&◌, ◌||◌, not,
  ltb, ◌==◌, if◌then◌else◌, ℤ, atoi, atoi-decimal, decimal, to_unsigned, arith,
}
use nonblocking_io.WorkerPool.Laws.{worker_num_for-eq-max}
use nonblocking_io.Programs.Options.{
  Opt, ServerOptions, server_option, server_options, default_options, main_pool, usage,
  ClientOptions, client_options, connect_with, client_test,
}

-- The argument of the last option with a character.
unfoldable pub last_of : (c : ℕ) → List Opt → Option (List ℕ)
last_of c [] = none
last_of c (o ∷ opts) = elim (last_of c opts) [
  | none ↦ if o.char == c then some o.optarg else none
  | some text ↦ some text
]

-- A number given as a text, or what stands without one.
abbrev pub number_or : (size given : ℕ) → Option (List ℕ) → ℕ
number_or size given none = given
number_or size given (some text) = to_unsigned size (atoi text)

server_options_lem :
    (opts : List Opt) (s : ServerOptions)
    → server_options opts s ≡ record {
      thread_num = number_or (2 ^ 32) s.thread_num (last_of b'n' opts);
      svr_port = number_or (2 ^ 16) s.svr_port (last_of b'p' opts);
    }
unfolding server_options last_of
server_options_lem [] s = refl
server_options_lem (o ∷ opts) s = ground (arith, server_options_lem opts (server_option o s))

-- On a machine with `cpu_core` processors, for options of which the last `-n` is a number as `%d`
-- prints it, and the last `-p` too: the server's port is the second number modulo 65536, and its
-- worker pool has as many workers as there are processors, or as the first number says, modulo 65536,
-- if that is more. (A number past the range of `int` is undefined for `atoi`.)
pub numbers_reach_server :
    {Poller : Type 0} (cpu_core k m : ℕ) (new : Poller) (opts : List Opt)
    → last_of b'n' opts ≡ some (decimal k)
    → last_of b'p' opts ≡ some (decimal m)
    → ((server_options opts (default_options cpu_core)).svr_port ≡ m % 2 ^ 16)
      × ((main_pool cpu_core new opts).worker_num ≡ max cpu_core (k % 2 ^ 16))
unfolding main_pool
numbers_reach_server cpu_core k m new opts n_is p_is = (
  ap (λ r. r.svr_port) (server_options_lem opts (default_options cpu_core))
      ∙ rw (p_is, atoi-decimal m),
  worker_num_for-eq-max cpu_core
        ((server_options opts (default_options cpu_core)).thread_num % 2 ^ 16)
      ∙ ap (λ r. max cpu_core (r.thread_num % 2 ^ 16))
          (server_options_lem opts (default_options cpu_core))
      ∙ rw (n_is, atoi-decimal k) (ap (max cpu_core) (omega arith)),
)

abbrev pub all_known : List Opt → Bool
all_known [] = true
all_known (o ∷ opts) = (o.char == b's' || o.char == b'p') && all_known opts

abbrev pub or_given : Option (List ℕ) → Option (List ℕ) → Option (List ℕ)
or_given none given = given
or_given (some text) given = some text

client_options_lem :
    (opts : List Opt) (s : ClientOptions)
    → client_options opts s ≡ (
        if all_known opts
        then some (record {
          svr_addr = or_given (last_of b's' opts) s.svr_addr;
          svr_port = number_or (2 ^ 16) s.svr_port (last_of b'p' opts);
        })
        else none)
unfolding client_options last_of
client_options_lem [] s = refl
client_options_lem (o ∷ opts) s = ground (
  arith,
  client_options_lem opts (record s { svr_addr = some o.optarg }),
  client_options_lem opts (record s { svr_port = to_unsigned (2 ^ 16) (atoi o.optarg) }),
)

-- What `client_test` does, for every `argc` and all options: with fewer than three arguments, or with
-- an option that is neither `-s` nor `-p`, it prints the usage; else it connects once, to the last
-- address given and the last port given, 0 if none is; without an address it runs into a null pointer.
pub client_test-last :
    (inet_addr : List ℕ → ℕ) (res : ℤ) (argc : ℕ) (opts : List Opt)
    → client_test inet_addr res argc opts ≡ (
        if ltb argc 3 || not (all_known opts)
        then usage
        else connect_with inet_addr res
            (last_of b's' opts)
            (number_or (2 ^ 16) 0 (last_of b'p' opts)))
unfolding client_test
client_test-last inet_addr res argc opts =
    ground (arith, client_options_lem opts (record { svr_addr = none; svr_port = 0 }))
