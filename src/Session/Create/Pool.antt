-- ===== src/Session/Create/Pool.antt =====
-- The registry of session/registry.go with the sessions that New of session/session.go makes.
use veidemann_browser_contro.Prelude.{
  append_text, ℕ, refl, true, arith, ltb, length, set, ◌+◌, ◌≡◌, sym, ap, ◌∙◌, subst, String, some,
  List, [], ◌∷◌, ◌++◌, get_elem?,
}
use veidemann_browser_contro.Errors.{Go, ok, fail, panic, bind-ok, ok_inj}
use veidemann_browser_contro.Registry.{
  Registry, returns, panics, take_slot, next_slot, new_registry, get_next_available, release,
}
use veidemann_browser_contro.Registry.Slots.{Inv, new_registry-Inv}
use veidemann_browser_contro.Registry.Take.{slot_is_free, took_slot-Inv, lost_slot-Inv}
use veidemann_browser_contro.Registry.Release.{release-Inv}
use veidemann_browser_contro.Session.{Session, SessionOption, new_default_session}
use veidemann_browser_contro.Session.Create.{address, with_workspace, with_endpoints, new_session}

returns_inj : {A : Type 0} {a b : A} → returns a ≡ returns b → a ≡ b
returns_inj e = cc

module _ {Url : Type 0} (parse : String → Go Url)
    (set_param append_param : String → String → Url → Url) (url_text : Url → String)
    (opts : List SessionOption) where
  abbrev new : ℕ → Go Session
  new = new_session parse set_param append_param url_text opts

  -- A session that New makes has the id that it was given.
  pub new_session-id : (i : ℕ) (s : Session) → new i ≡ ok s → s.id ≡ i
  unfolding new_session with_endpoints with_workspace
  new_session-id i s e =
      let fresh : Session = record (new_default_session opts) { id = i } in
      let (ws, parsed, e') =
        bind-ok (parse (address "ws" fresh.browser_host fresh.browser_port)) _ s e in
      let (work, parsed', e'') =
        bind-ok
          (parse (append_text (address "http" fresh.browser_host fresh.browser_port) "/workspace"))
          _ s e' in
      sym (ap (λ (t : Session). t.id) (ok_inj e''))

  -- The id that a call of GetNextAvailable loses: the one that it took from the pool, if New failed.
  abbrev pub lost_by : Go Session → List ℕ → List ℕ
  lost_by (fail e) (i ∷ pool) = i ∷ []
  lost_by _ pool = []

  -- The registries that the controller can come to, by the calls that return, with the ids that its
  -- calls of GetNextAvailable have lost, the last one first.
  pub data Reach (max_sessions : ℕ) : List ℕ → Registry Session → Type 0 where
    created : (r : Registry Session) → new_registry max_sessions ≡ some r → Reach max_sessions [] r
    taken :
        (lost : List ℕ) (r : Registry Session) (result : Go Session) (r' : Registry Session)
        → Reach max_sessions lost r
        → get_next_available new r ≡ returns (result, r')
        → Reach max_sessions (lost_by result r.pool ++ lost) r'
    released :
        (lost : List ℕ) (r : Registry Session) (s : Session) (r' : Registry Session)
        → Reach max_sessions lost r
        → get_elem? r.sessions s.id ≡ some (some s)
        → release (λ t. t.id) r s ≡ returns r'
        → Reach max_sessions lost r'

  -- What the call leaves behind, with the ids lost so far.
  taken-Inv :
      (lost : List ℕ) (r : Registry Session) (result : Go Session) (r' : Registry Session)
      → Inv (λ s. s.id) r lost
      → get_next_available new r ≡ returns (result, r')
      → Inv (λ s. s.id) r' (lost_by result r.pool ++ lost)
  unfolding get_next_available next_slot
  taken-Inv lost r result r' v e = go r.pool refl e
    where
      same :
          (c : Go Session × Registry Session) (pool : List ℕ)
          → c ≡ (result, r')
          → Inv (λ s. s.id) c.1 (lost_by c.0 pool ++ lost)
          → Inv (λ s. s.id) r' (lost_by result pool ++ lost)
      same c pool q h = subst (λ t. Inv (λ s. s.id) t.1 (lost_by t.0 pool ++ lost)) q h

      made :
          (i : ℕ) (rest : List ℕ) (x : Go Session)
          → r.pool ≡ i ∷ rest
          → new i ≡ x
          → take_slot new r i rest ≡ returns (result, r')
          → Inv (λ s. s.id) r' (lost_by result (i ∷ rest) ++ lost)
      made i rest (ok s) p q e =
          let (lt, free) = slot_is_free (λ s. s.id) new new_session-id r lost i rest v p in
          let inside : ltb i (length r.sessions) ≡ true = ground arith in
          let taken_now = record r {
            pool = rest;
            wg = r.wg + 1;
            sessions = set r.sessions i (some s);
          } in
          let own : take_slot new r i rest ≡ returns (ok s, taken_now) =
            rw (q, take_slot) (rw inside refl) in
          same (ok s, taken_now) (i ∷ rest) (returns_inj (sym own ∙ e))
            (took_slot-Inv (λ s. s.id) new new_session-id r lost i rest s v p (new_session-id i s q)
              lt)
      made i rest (fail x) p q e =
          let own : take_slot new r i rest ≡ returns (fail x, record r { pool = rest }) =
            rw (q, take_slot) refl in
          same (fail x, record r { pool = rest }) (i ∷ rest) (returns_inj (sym own ∙ e))
            (lost_slot-Inv (λ s. s.id) new new_session-id r lost i rest v p)
      made i rest panic p q e =
          let broken : take_slot new r i rest ≡ panics = rw (q, take_slot) refl in cc

      go :
          (p : List ℕ)
          → r.pool ≡ p
          → next_slot new r p ≡ returns (result, r')
          → Inv (λ s. s.id) r' (lost_by result p ++ lost)
      go [] p e = cc
      go (i ∷ rest) p e = made i rest (new i) p refl e

  -- Through any calls of GetNextAvailable and Release that return, each Release of a session that the
  -- registry holds, every id from 1 to the last is in the pool, or in use by the one session that has
  -- this id, or was lost by a call of GetNextAvailable whose New failed, and only one of these; no
  -- Release loses an id.
  pub Reach-Sound :
      (max_sessions : ℕ) (lost : List ℕ) (r : Registry Session)
      → Reach max_sessions lost r
      → Inv (λ s. s.id) r lost
  Reach-Sound max_sessions lost r (created r1 e) = new_registry-Inv (λ s. s.id) max_sessions r e
  Reach-Sound max_sessions lost' r' (taken lost r result r1 h e) =
      taken-Inv lost r result r' (Reach-Sound max_sessions lost r h) e
  Reach-Sound max_sessions lost r' (released l r s r1 h held e) =
      let (r'', e', v', _, _) =
        release-Inv (λ s. s.id) r lost s (Reach-Sound max_sessions lost r h) held in
      subst (λ t. Inv (λ s. s.id) t lost) (returns_inj (sym e' ∙ e)) v'
