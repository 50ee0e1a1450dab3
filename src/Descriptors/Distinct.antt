-- ===== src/Descriptors/Distinct.antt =====
-- The descriptors of the connections that `poll_for_connect` hands on.
use mathlib.Core.Path.{subst}
use mathlib.Core.Bool.{true≢false}
use nonblocking_io.Common.{
  arith, ◌==◌, ap₂, ◌+◌, ℕ, zero, suc, ◌≡◌, ◌≢◌, refl, sym, ap, ◌∙◌, true, Option, List, [], ◌∷◌,
  ◌++◌, ℤ, pos, negsuc, if◌then◌else◌, All, All-append_one, All-map, inl, inr,
}
use nonblocking_io.WorkerPool.{ClientInfo}
use nonblocking_io.Server.Cases.{welcome_calls, on_event_cases}
use nonblocking_io.Server.{Server, Accepted, client_of, welcome, on_event, new_server}
use nonblocking_io.Service.Tables.{AllDistinct}
use nonblocking_io.Descriptors.{Files, IsTable, connection, connections}

AllDistinct-append_one :
    (cs : List ClientInfo) (d : ClientInfo)
    → AllDistinct cs
    → All (λ c. c.fd ≢ d.fd) cs
    → AllDistinct (cs ++ (d ∷ []))
AllDistinct-append_one [] d h new = (tt, tt)
AllDistinct-append_one (c ∷ cs) d (h, hs) (new, news) =
    (All-append_one (λ x. c.fd ≢ x.fd) cs d h new, AllDistinct-append_one cs d hs news)

another_call {ℓ} :
    {A : Type ℓ} (s s' : Server) (t u : A)
    → s'.calls ≡ s.calls + 1
    → (if s'.calls == s.calls then t else u) ≡ u
another_call s s' t u e = ground (arith, e)

no_call {ℓ} :
    {A : Type ℓ} (s s' : Server) (t u : A)
    → s'.calls ≡ s.calls
    → (if s'.calls == s.calls then t else u) ≡ t
no_call s s' t u e = ground (arith, e)

module _ {State : Type 0} (f : Files State) (law : IsTable f) where
  pub record AreOpen (st : Server × State) : Type 0 where
    pub distinct : AllDistinct st.0.submitted
    pub all_open : All (λ c. f.is_open st.1 c.fd ≡ true) st.0.submitted

  stays_open :
      (s : Server) (t : State)
      → AreOpen (s, t)
      → All (λ c. f.is_open (f.accept t).1 c.fd ≡ true) s.submitted
  stays_open s t h =
      All-map
        (λ c is_open.
          law.accept_opens.others t c.fd
            (λ e. true≢false (sym is_open ∙ law.accept_opens.was_free t c.fd e))
          ∙ is_open)
        s.submitted h.all_open

  accepted_fresh :
      (s : Server) (t : State) (fd : ℕ)
      → (f.accept t).0 ≡ pos fd
      → AreOpen (s, t)
      → All (λ c. c.fd ≢ fd) s.submitted
  accepted_fresh s t fd e h =
      All-map
        (λ c is_open same.
          true≢false (sym is_open ∙ ap (f.is_open t) same ∙ law.accept_opens.was_free t fd e))
        s.submitted h.all_open

  welcome-AreOpen :
      (r : ℤ) (a : Accepted) (s : Server) (t : State)
      → (f.accept t).0 ≡ r
      → AreOpen (s, t)
      → AreOpen (welcome r a (record s { calls = s.calls + 1 }), (f.accept t).1)
  welcome-AreOpen (pos zero) a s t e h = record {
    distinct = h.distinct;
    all_open = stays_open s t h;
  }
  welcome-AreOpen (pos (suc fd)) a s t e h = record {
    distinct =
        AllDistinct-append_one s.submitted (client_of (suc fd) a) h.distinct
          (accepted_fresh s t (suc fd) e h);
    all_open =
        All-append_one (λ c. f.is_open (f.accept t).1 c.fd ≡ true) s.submitted
          (client_of (suc fd) a) (stays_open s t h) (law.accept_opens.opened t (suc fd) e);
  }
  welcome-AreOpen (negsuc n) a s t e h = record {
    distinct = h.distinct;
    all_open = stays_open s t h;
  }

  pub connection-AreOpen :
      (events : ℕ) (host : Option ℕ) (port : ℕ) (st : Server × State)
      → AreOpen st
      → AreOpen (connection f events host port st)
  unfolding connection
  connection-AreOpen events host port (s, t) h =
      let (fd, u) = f.accept t in
      let a : Accepted = record { client_fd = fd; host = host; port = port } in
      elim (on_event_cases events a s) [
        | inl called ↦
            subst AreOpen
              (ap₂ (λ x y. (x, y)) (sym called)
                (sym (
                  another_call s (on_event events a s) t u
                    (ap (λ (x : Server). x.calls) called ∙ welcome_calls fd a _))))
              (welcome-AreOpen fd a s t refl h)
        | inr (same, calls) ↦
            subst (λ x. AreOpen (on_event events a s, x))
              (sym (no_call s (on_event events a s) t u calls))
              (record {
                distinct = subst AllDistinct (sym same) h.distinct;
                all_open = subst (All (λ c. f.is_open t c.fd ≡ true)) (sym same) h.all_open;
              })
      ]

  pub connections-AreOpen :
      (events : List (ℕ × (Option ℕ × ℕ))) (st : Server × State)
      → AreOpen st
      → AreOpen (connections f events st)
  unfolding connections
  connections-AreOpen [] st h = h
  connections-AreOpen ((events, (host, port)) ∷ rest) st h =
      connections-AreOpen rest (connection f events host port st)
        (connection-AreOpen events host port st h)

  -- Over a table of descriptors with the documented laws, whatever events come to a new server and
  -- whatever `accept` gives, while no descriptor is closed: the clients that the server submits have
  -- descriptors that differ from one another and are all open.
  connections_distinct :
      (events : List (ℕ × (Option ℕ × ℕ))) (t : State)
      → let st = connections f events (new_server, t) in
        AllDistinct st.0.submitted × All (λ c. f.is_open st.1 c.fd ≡ true) st.0.submitted
  connections_distinct events t =
      let after =
        connections-AreOpen events (new_server, t) (record { distinct = tt; all_open = tt }) in
      (after.distinct, after.all_open)
