-- ===== src/Transport/Segments/Trailing.antt =====
-- What a wildcard at the end of a pattern of redis.py or nats.py stands for.
use observer_pattern.Prelude.{
  ◌≡◌, ◌≢◌, ◌↔◌, ◌⊎◌, refl, sym, ap, ◌∙◌, subst, inl, inr, true, List, [], ◌∷◌, ◌++◌, arith, map,
  Text, All, All-append, codes,
}
use mathlib.Core.List.{append_assoc, append-nil}
use observer_pattern.Transport.Segments.{Part, rest, segment, lit, newline, parts, segment_matches}
use observer_pattern.Transport.Segments.Fits.{Fits, segment_matches-Fits}

abbrev pub HasNoStar : Text → Type 0
HasNoStar = All (λ c. c ≢ b'*')

parts_literal : (p s : Text) → HasNoStar p → parts (p ++ b'*' ∷ s) ≡ map lit p ++ parts (b'*' ∷ s)
unfolding parts
parts_literal [] s a = refl
parts_literal (c ∷ []) s a = ground arith
parts_literal (c ∷ d ∷ p) s a = ground (arith, parts_literal (d ∷ p) s a.1)

Fits-literal :
    (p : Text) (ps : List Part) (s : Text)
    → Fits (map lit p ++ ps) s ↔ ((r : Text) × (s ≡ p ++ r) × Fits ps r)
Fits-literal [] ps s = (λ f. (s, refl, f), λ (r, e, f). subst (Fits ps) (sym e) f)
Fits-literal (c ∷ p) ps s = (
  λ (r, e, f). let (r', e', f') = (Fits-literal p ps r).0 f in (r', e ∙ ap (◌∷◌ c) e', f'),
  λ (r, e, f). (p ++ r, e, (Fits-literal p ps (p ++ r)).1 (r, refl, f)),
)

-- On the Redis and NATS transports, if the prefix has no star, `prefix*` matches exactly the topics
-- that go on with a text without dots, and `prefix**` exactly those that go on with a text without
-- newlines, but for one at the end.
pub segment_matches_trailing :
    (p topic : Text)
    → HasNoStar p
    → ((segment_matches topic (p ++ codes "*") ≡ true)
        ↔ ((s : Text) × (topic ≡ p ++ s) × All (λ c. c ≢ b'.') s))
      × ((segment_matches topic (p ++ codes "**") ≡ true) ↔ (
          (s : Text) × (e : Text) × (topic ≡ p ++ s ++ e)
          × All (λ c. c ≢ newline) s
          × ((e ≡ []) ⊎ (e ≡ newline ∷ []))))
unfolding parts
segment_matches_trailing p topic a =
    let one = segment_matches-Fits topic (p ++ codes "*") in
    let many = segment_matches-Fits topic (p ++ codes "**") in
    let parts_one = parts_literal p [] a in
    let parts_many = parts_literal p (codes "*") a in
    (
      (
        λ h. elim (one.0 h) [
          | inl e ↦ (codes "*", sym e, (λ q. omega arith, tt))
          | inr f ↦
              let (r, e, (t, u, e', n, end)) =
                (Fits-literal p (segment ∷ []) topic).0 (subst (λ ps. Fits ps topic) parts_one f) in
              (
                r,
                e,
                subst (All (λ c. c ≢ b'.')) (sym e') (
                    All-append (λ c. c ≢ b'.') t u n
                      (elim end [
                        | inl q ↦ subst (All (λ c. c ≢ b'.')) (sym q) tt
                        | inr q ↦ subst (All (λ c. c ≢ b'.')) (sym q) (λ z. omega arith, tt)
                      ])),
              )
        ],
        λ (s, e, n). one.1 (
            inr (
              subst (λ ps. Fits ps topic) (sym parts_one)
                ((Fits-literal p (segment ∷ []) topic).1
                  (s, e, (s, [], sym (append-nil s), n, inl refl))))),
      ),
      (
        λ h. elim (many.0 h) [
          | inl e ↦ (
            codes "**",
            [],
            sym e ∙ sym (append-nil (p ++ codes "**")),
            (λ q. omega arith, (λ q. omega arith, tt)),
            inl refl,
          )
          | inr f ↦
              let (r, e, (t, u, e', n, end)) =
                (Fits-literal p (rest ∷ []) topic).0 (subst (λ ps. Fits ps topic) parts_many f) in
              (t, u, e ∙ ap (λ y. p ++ y) e' ∙ sym (append_assoc p t u), n, end)
        ],
        λ (s, u, e, n, end). many.1 (
            inr (
              subst (λ ps. Fits ps topic) (sym parts_many)
                ((Fits-literal p (rest ∷ []) topic).1
                  (s ++ u, e ∙ append_assoc p s u, (s, u, refl, n, end))))),
      ),
    )
