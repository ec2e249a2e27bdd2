-- ===== src/Wire/Delivery.antt =====
-- What a stream has received when its use is over.
use mathlib.Core.List.{append-nil, append_assoc}
use veidemann_browser_contro.Prelude.{
  ◌≡◌, refl, sym, ap, subst, ◌⊎◌, inl, inr, some, Option-cases, List, [], ◌∷◌, ◌++◌,
}
use veidemann_browser_contro.Errors.{GoError}
use veidemann_browser_contro.Wire.{Stream, Sent, sending, close_stream}

module _ {Msg : Type 0} where
  -- All messages went out, and the result is the server's answer; or those before one that could not
  -- be sent, and there is an error.
  abbrev pub Delivers : Stream Msg → List Msg → Sent Msg → Type 0
  Delivers stream wanted r =
      ((r.0 ≡ wanted) × (r.1 ≡ stream.close_and_recv wanted))
      ⊎ ((before : List Msg) × (m : Msg) × (after : List Msg) × (e : GoError) × (x : GoError)
          × (wanted ≡ before ++ m ∷ after)
          × (stream.send before m ≡ some e)
          × (r ≡ (before, some x)))

  pub sending-Delivers :
      (stream : Stream Msg) (failed : List Msg → GoError → GoError) (m : Msg)
      (after sent : List Msg) (next : List Msg → Sent Msg)
      → Delivers stream ((sent ++ m ∷ []) ++ after) (next (sent ++ m ∷ []))
      → Delivers stream (sent ++ m ∷ after) (sending stream failed m next sent)
  sending-Delivers stream failed m after sent next h = elim (Option-cases (stream.send sent m)) [
    | inl sent_it ↦
        rw (sent_it, sending)
          (subst (λ w. Delivers stream w (next (sent ++ m ∷ []))) (append_assoc sent (m ∷ []) after)
            h)
    | inr (e, refused) ↦ rw (refused, sending) (inr (sent, m, after, e, _, refl, refused, refl))
  ]

  pub close_stream-Delivers :
      (stream : Stream Msg) (sent : List Msg)
      → Delivers stream (sent ++ []) (close_stream stream sent)
  unfolding close_stream
  close_stream-Delivers stream sent =
      inl (sym (append-nil sent), ap stream.close_and_recv (sym (append-nil sent)))
