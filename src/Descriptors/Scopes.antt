-- ===== src/Descriptors/Scopes.antt =====
-- What is open when the scopes of clients and epoll wrappers have ended.
use native.Mathlib.Decide.{ℕ_discrete}
use mathlib.Core.Path.{subst}
use mathlib.Core.Option
use mathlib.Core.Option.{some-injective}
use nonblocking_io.Common.{
  if◌then◌else◌, ℕ, ◌≡◌, refl, sym, ap, ◌∙◌, Bool, true, false, Option, none, some, List, [], ◌∷◌,
  arith, ℤ, pos, negsuc,
}
use nonblocking_io.Descriptors.{
  Files, Opens, IsTable, Kind, tcp_client, epoll_wrapper, aborts, construct, destroy, scopes,
}

unless-some {ℓ} :
    {A : Type ℓ} (stop : Bool) (r : Option A) {x : A}
    → (if stop then none else r) ≡ some x
    → r ≡ some x
unless-some true r e = ground (arith, e)
unless-some false r e = e

module _ {State : Type 0} (f : Files State) (law : IsTable f) where
  construct-Opens : (kind : Kind) → Opens f (construct f kind)
  construct-Opens tcp_client = law.socket_opens
  construct-Opens epoll_wrapper = law.epoll_opens

  -- An object made and destroyed, where what happens between leaves what is open.
  made-destroyed :
      (call : State → ℤ × State) (o : Opens f call) (s t : State) (fd : ℕ) (r : ℤ)
      → (call s).0 ≡ r
      → f.is_open t fd ≡ f.is_open (call s).1 fd
      → f.is_open (destroy f r t) fd ≡ f.is_open s fd
  made-destroyed call o s t fd (pos k) e same = elim (ℕ_discrete k fd) [
    | yes is_it ↦
        subst (λ n. f.is_open (destroy f (pos k) t) n ≡ f.is_open s n) is_it
          (law.closed t k ∙ sym (o.was_free s k e))
    | no other ↦ law.close_others t k fd other ∙ same ∙ o.others s fd (λ h. other (cc (e, h)))
  ]
  made-destroyed call o s t fd (negsuc k) e same =
      law.close_bad t k fd ∙ same ∙ o.others s fd (λ h. ground (arith, e, h))

  -- As `made-destroyed`, where the scopes inside may end the process.
  around :
      (kind : Kind) (s t : State) (fd : ℕ) (inside : Option State)
      → ((u : State) → inside ≡ some u → f.is_open u fd ≡ f.is_open (construct f kind s).1 fd)
      → Option.map (destroy f (construct f kind s).0) inside ≡ some t
      → f.is_open t fd ≡ f.is_open s fd
  around kind s t fd none same e = ground (arith, e)
  around kind s t fd (some u) same e =
      ap (λ x. f.is_open x fd) (sym (some-injective _ _ e))
      ∙ made-destroyed (construct f kind) (construct-Opens kind) s u fd (construct f kind s).0 refl
          (same u refl)

  -- Over a table of descriptors with the documented laws: when any nest of clients and epoll wrappers
  -- has ended, where no wrapper has ended the process, just the descriptors are open that were open
  -- before, whether or not the clients got theirs.
  pub scopes_restore :
      (kinds : List Kind) (s : State) (t : State) (fd : ℕ)
      → scopes f kinds s ≡ some t
      → f.is_open t fd ≡ f.is_open s fd
  unfolding scopes
  scopes_restore [] s t fd e = ap (λ x. f.is_open x fd) (sym (some-injective _ _ e))
  scopes_restore (kind ∷ inner) s t fd e =
      let (r, made) = construct f kind s in
      around kind s t fd (scopes f inner made) (λ u. scopes_restore inner made u fd)
        (unless-some (aborts kind r) _ e)
