-- ===== src/WorkerPool/Round/Registered.antt =====
-- What a worker records in `client_infos`, and what its poller watches.
use nonblocking_io.Common.{
  ℕ, ◌≡◌, ◌≢◌, refl, true, Option, none, some, List, [], ◌∷◌, ◌++◌, arith, ℤ, pos, lookup, insert,
  lookup-insert, is_some, sym, All, insert_all, insert_all-append, length, append_assoc, append-nil,
  ap, ◌∙◌, ◌⊎◌, inl, inr, Bool, false, ◌||◌, ◌==◌, if◌then◌else◌,
}
use Prim.Native.Nat.{bit_or}
use mathlib.Core.Path.{subst}
use native.Mathlib.Decide.{ℕ_discrete}
use nonblocking_io.Epoll.{Kernel, IsEpoll, epollet, add_event, is_minus_one}
use nonblocking_io.WorkerPool.{ClientInfo, Worker, take_first}
use nonblocking_io.WorkerPool.Reply.{bufsiz}
use nonblocking_io.WorkerPool.Handover.{entry}
use nonblocking_io.WorkerPool.Round.Answered.{IsAvailable, after_wait, worker_round-Answers}
use nonblocking_io.WorkerPool.Round.{
  Round, Input, add_to, arrive_and_take, worker_round, worker_rounds,
}

-- What tasks put in before and during the rounds.
abbrev pub arrivals : List Input → List ClientInfo
arrivals [] = []
arrivals (i ∷ inputs) = i.arrived ++ arrivals inputs

abbrev pub entries : List ClientInfo → List (ℕ × ClientInfo)
entries [] = []
entries (info ∷ rest) = entry info ∷ entries rest

entries-append : (xs ys : List ClientInfo) → entries (xs ++ ys) ≡ entries xs ++ entries ys
entries-append [] ys = refl
entries-append (x ∷ xs) ys = ap (λ es. entry x ∷ es) (entries-append xs ys)

-- From the stored clients `storage`, those `taken` are gone, and entered in `client_infos`.
pub record Taken (storage : List ClientInfo) (m : List (ℕ × ClientInfo)) (rest : List ClientInfo)
    (m' : List (ℕ × ClientInfo)) : Type 0 where
  pub taken : List ClientInfo
  pub fifo : storage ≡ taken ++ rest
  pub infos : m' ≡ insert_all (entries taken) m

abbrev pub mem : ℕ → List ℕ → Bool
mem x [] = false
mem x (y ∷ ys) = (x == y) || mem x ys

mem-append_left : (x : ℕ) (xs ys : List ℕ) → mem x xs ≡ true → mem x (xs ++ ys) ≡ true
mem-append_left x [] ys h = absurd (ground (arith, h))
mem-append_left x (y ∷ xs) ys h = ground (arith, h, mem-append_left x xs ys)

mem-append_right : (x : ℕ) (xs ys : List ℕ) → mem x ys ≡ true → mem x (xs ++ ys) ≡ true
mem-append_right x [] ys h = h
mem-append_right x (y ∷ xs) ys h = ground (arith, mem-append_right x xs ys h)

module _ {State : Type 0} (k : Kernel State) where
  -- The descriptor of a client, if the kernel's answer to its add is a failure.
  abbrev failed_add : State → ClientInfo → List ℕ
  failed_add s info =
      if is_minus_one (k.ctl_add s info.fd (bit_or info.events epollet)).0 then info.fd ∷ [] else []

  abbrev failed_first : List ClientInfo → Worker State → List ℕ
  failed_first [] w = []
  failed_first (info ∷ rest) w = failed_add w.poller info

  -- The descriptors whose adds fail in the rounds.
  unfoldable pub failed_adds : (worker_num : ℕ) → List Input → Round State → List ℕ
  unfolding worker_round
  failed_adds worker_num [] s = []
  failed_adds worker_num (i ∷ inputs) s =
      failed_first (s.storage ++ i.arrived) s.worker ++ elim (worker_round k worker_num i s) [
        | none ↦ []
        | some r ↦ failed_adds worker_num inputs r
      ]

  -- The worker has a record of every descriptor that its poller watches, and of no others but those
  -- of `failed`.
  abbrev pub IsRegistered : (failed : List ℕ) → Worker State → Type 0
  IsRegistered failed w =
      (fd : ℕ)
      → (is_some (k.registered w.poller fd) ≡ true → is_some (lookup fd w.client_infos) ≡ true)
        × (is_some (lookup fd w.client_infos) ≡ true
            → (is_some (k.registered w.poller fd) ≡ true) ⊎ (mem fd failed ≡ true))

  module _ (law : IsEpoll k) where
    add_to_same :
        (s : State) (info : ClientInfo) (old : Option ℕ)
        → k.registered s info.fd ≡ old
        → (is_some (k.registered (add_to k s info.fd info.events) info.fd) ≡ true)
          ⊎ (mem info.fd (failed_add s info) ≡ true)
    unfolding add_event
    add_to_same s info none e = elim (law.add_new s info.fd (bit_or info.events epollet) e) [
      | inl (returned, entered) ↦ inl (ground (arith, entered))
      | inr (returned, absent) ↦ inr (ground (arith, returned))
    ]
    add_to_same s info (some old) e =
        inl (ground (arith, law.add_old s info.fd (bit_or info.events epollet) old e, e))

    add_to_other :
        (s : State) (fd events other : ℕ)
        → fd ≢ other
        → k.registered (add_to k s fd events) other ≡ k.registered s other
    unfolding add_event
    add_to_other s fd events other ne =
        ground (arith, law.add_others s fd (bit_or events epollet) other ne)

    insert_same :
        (fd : ℕ) (info : ClientInfo) (m : List (ℕ × ClientInfo))
        → is_some (lookup fd (insert fd info m)) ≡ true
    insert_same fd info m = ground (arith, lookup-insert fd fd info m)

    insert_other :
        (fd other : ℕ) (info : ClientInfo) (m : List (ℕ × ClientInfo))
        → fd ≢ other
        → lookup other (insert fd info m) ≡ lookup other m
    insert_other fd other info m ne = ground (arith, lookup-insert other fd info m, ne)

    take-IsRegistered :
        (failed : List ℕ) (storage : List ClientInfo) (w : Worker State)
        → IsRegistered failed w
        → IsRegistered (failed ++ failed_first storage w) (take_first (add_to k) storage w).1
    take-IsRegistered failed [] w h fd = rw (append-nil failed) (h fd)
    take-IsRegistered failed (info ∷ rest) w h fd = elim (ℕ_discrete info.fd fd) [
      | yes e ↦
          subst
            (λ fd'.
              (is_some (k.registered (add_to k w.poller info.fd info.events) fd') ≡ true
                → is_some (lookup fd' (insert info.fd info w.client_infos)) ≡ true)
              × (is_some (lookup fd' (insert info.fd info w.client_infos)) ≡ true
                  → (is_some (k.registered (add_to k w.poller info.fd info.events) fd') ≡ true)
                    ⊎ (mem fd' (failed ++ failed_add w.poller info) ≡ true)))
            e
            (
              (λ watched. insert_same info.fd info w.client_infos),
              (λ recorded. elim (add_to_same w.poller info (k.registered w.poller info.fd) refl) [
                | inl there ↦ inl there
                | inr now ↦ inr (mem-append_right info.fd failed (failed_add w.poller info) now)
              ]),
            )
      | no ne ↦
          rw
            (
              insert_other info.fd fd info w.client_infos ne,
              add_to_other w.poller info.fd info.events fd ne,
            )
            (
              (h fd).0,
              (λ recorded. elim ((h fd).1 recorded) [
                | inl there ↦ inl there
                | inr before ↦ inr (mem-append_left fd failed (failed_add w.poller info) before)
              ]),
            )
    ]

    nothing-Taken :
        {storage : List ClientInfo} {m : List (ℕ × ClientInfo)} → Taken (storage ++ []) m storage m
    unfolding insert_all
    nothing-Taken {storage} = record { taken = []; fifo = append-nil storage; infos = refl }

    take_first-Taken :
        (storage : List ClientInfo) (w : Worker State)
        → Taken storage w.client_infos
            (take_first (add_to k) storage w).0
            (take_first (add_to k) storage w).1.client_infos
    unfolding insert_all
    take_first-Taken [] w = record { taken = []; fifo = refl; infos = refl }
    take_first-Taken (info ∷ rest) w = record { taken = info ∷ []; fifo = refl; infos = refl }

    after_wait-IsRegistered :
        (failed : List ℕ) (s : Round State) (timeout : ℤ)
        → IsRegistered failed s.worker
        → IsRegistered failed (after_wait k s timeout).worker
    after_wait-IsRegistered failed s timeout h fd =
        rw (law.wait_keeps s.worker.poller timeout fd) (h fd)

    Taken-append :
        (storage arrived later : List ClientInfo) {rest last : List ClientInfo}
        {m m' m'' : List (ℕ × ClientInfo)}
        → Taken (storage ++ arrived) m rest m'
        → Taken (rest ++ later) m' last m''
        → Taken (storage ++ (arrived ++ later)) m last m''
    Taken-append storage arrived later {rest} {last} {m} a b = record {
      taken = a.taken ++ b.taken;
      fifo =
          sym (append_assoc storage arrived later)
          ∙ ap (λ xs. xs ++ later) a.fifo
          ∙ append_assoc a.taken rest later
          ∙ ap (λ xs. a.taken ++ xs) b.fifo
          ∙ sym (append_assoc a.taken b.taken last);
      infos =
          b.infos
          ∙ ap (insert_all (entries b.taken)) a.infos
          ∙ sym (insert_all-append (entries a.taken) (entries b.taken) m)
          ∙ ap (λ es. insert_all es m) (sym (entries-append a.taken b.taken));
    }

    -- Over a kernel with the documented laws of epoll_ctl and epoll_wait, in which an add may fail,
    -- for a worker of a pool of `worker_num` that has a record of every descriptor that its poller
    -- watches and of no others but those of `failed`, with a send buffer of `BUFSIZ` bytes, and for
    -- any rounds in each of which between 1 and `worker_num` workers are available when their
    -- number is used: the rounds come to their end and leave the buffer that size. The worker still
    -- has a record of every descriptor that its poller watches, and of no others but those of
    -- `failed` and those whose add failed in the rounds. The clients that were stored or have
    -- arrived are, in order, those that the worker has taken, and then those still stored; and
    -- `client_infos` has had the ones taken inserted in that order.
    pub worker_rounds-IsRegistered :
        (worker_num : ℕ) (failed : List ℕ) (inputs : List Input) (s : Round State)
        → All (IsAvailable worker_num) inputs
        → length s.written.buf ≡ bufsiz
        → IsRegistered failed s.worker
        → (r : Round State) × (worker_rounds k worker_num inputs s ≡ some r)
          × IsRegistered (failed ++ failed_adds worker_num inputs s) r.worker
          × (length r.written.buf ≡ bufsiz)
          × Taken
              (s.storage ++ arrivals inputs)
              s.worker.client_infos
              r.storage
              r.worker.client_infos
    unfolding worker_rounds failed_adds
    worker_rounds-IsRegistered worker_num failed [] s _ whole h =
        (s, refl, rw (append-nil failed) h, whole, nothing-Taken)
    worker_rounds-IsRegistered worker_num failed (i ∷ inputs) s (ok, oks) whole h =
        let taken = arrive_and_take k i.arrived s in
        let first = failed_first (s.storage ++ i.arrived) s.worker in
        let (w, lo, hi, r, e, st, a) = worker_round-Answers k worker_num i s ok whole in
        let h' =
          after_wait-IsRegistered (failed ++ first) taken (pos w)
            (take-IsRegistered failed (s.storage ++ i.arrived) s.worker h) in
        let (t, e', h'', whole', rest) =
          worker_rounds-IsRegistered worker_num (failed ++ first) inputs r oks a.whole
            (subst (IsRegistered (failed ++ first)) (sym a.worker) h') in
        (
          t,
          rw (worker_rounds, e) e',
          rw e (
              subst (λ xs. IsRegistered xs t.worker)
                (append_assoc failed first (failed_adds worker_num inputs r)) h''),
          whole',
          Taken-append s.storage i.arrived (arrivals inputs) {rest = r.storage}
              {m' = r.worker.client_infos}
              (rw (a.storage, a.worker) (take_first-Taken (s.storage ++ i.arrived) s.worker)) rest,
        )
