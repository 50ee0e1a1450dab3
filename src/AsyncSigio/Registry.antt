-- ===== src/AsyncSigio/Registry.antt =====
-- The table of callbacks over the lives of any number of instances.
use nonblocking_io.Common.{
  ℕ, ◌≡◌, refl, sym, ap, ◌∙◌, List, [], ◌∷◌, ◌++◌, append_assoc, append-nil,
}
use nonblocking_io.AsyncSigio.{Sigio, Instance, construct, destruct, call_all, async_sigio_handler}

pub data Op : Type 0 where
  made : Instance → Op
  gone : Instance → Op

unfoldable pub run_ops : List Op → Sigio → Sigio
unfolding construct destruct
run_ops [] s = s
run_ops (made i ∷ ops) s = run_ops ops (construct i s)
run_ops (gone i ∷ ops) s = run_ops ops (destruct i s)

-- The calls for every instance that has been made, in their order.
unfoldable pub calls_of : List Op → (sig : ℕ) → List (ℕ × ℕ)
calls_of [] sig = []
calls_of (made i ∷ ops) sig = (i.callback, sig) ∷ calls_of ops sig
calls_of (gone i ∷ ops) sig = calls_of ops sig

call_all-append :
    (fs gs : List ℕ) (sig : ℕ) → call_all (fs ++ gs) sig ≡ call_all fs sig ++ call_all gs sig
unfolding call_all
call_all-append [] gs sig = refl
call_all-append (f ∷ fs) gs sig = ap (λ t. (f, sig) ∷ t) (call_all-append fs gs sig)

-- After any run of constructors and destructors: a signal calls what it called before the run, and
-- then the callback of every instance made in the run, once each and in that order, those of the
-- instances that are gone included.
pub handler_calls_all :
    (ops : List Op) (s : Sigio) (sig : ℕ)
    → async_sigio_handler sig (run_ops ops s) ≡ async_sigio_handler sig s ++ calls_of ops sig
unfolding run_ops calls_of async_sigio_handler
handler_calls_all [] s sig = sym (append-nil (call_all s.callbacks sig))
handler_calls_all (made i ∷ ops) s sig =
    handler_calls_all ops (construct i s) sig
    ∙ ap (λ t. t ++ calls_of ops sig) (call_all-append s.callbacks (i.callback ∷ []) sig)
    ∙ append_assoc (call_all s.callbacks sig) ((i.callback, sig) ∷ []) (calls_of ops sig)
handler_calls_all (gone i ∷ ops) s sig = handler_calls_all ops (destruct i s) sig
