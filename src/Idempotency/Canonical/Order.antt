-- ===== src/Idempotency/Canonical/Order.antt =====
-- The order of the texts, and the sort of entries whose keys differ.
use fluvia.Base.{
  ◌≡◌, refl, sym, ap, ◌∙◌, true, false, not, List, [], ◌∷◌, Bool-cases, inl, inr, arith,
}
use fluvia.Base.Text.{Text, text_eq, text_less}
use fluvia.Idempotency.Canonical.{insert_entry_text}

-- Of two texts that differ, one comes first.
text_less_total : (a b : Text) → text_eq a b ≡ false → text_less b a ≡ not (text_less a b)
unfolding text_eq text_less
text_less_total [] [] h = cc
text_less_total [] (y ∷ ys) h = refl
text_less_total (x ∷ xs) [] h = refl
text_less_total (x ∷ xs) (y ∷ ys) h = ground (arith, text_less_total xs ys)

-- What comes after a text comes after every text that is not after it.
text_less_between :
    (r p q : Text) → text_less r p ≡ false → text_less r q ≡ true → text_less p q ≡ true
unfolding text_less
text_less_between r p [] h k = cc
text_less_between r [] (y ∷ ys) h k = refl
text_less_between [] (x ∷ xs) (y ∷ ys) h k = cc
text_less_between (z ∷ zs) (x ∷ xs) (y ∷ ys) h k = ground (arith, text_less_between zs xs ys)

module _ (p q : Text × Text) (qs : List (Text × Text)) where
  insert_after :
      text_less q.0 p.0 ≡ true → insert_entry_text p (q ∷ qs) ≡ q ∷ insert_entry_text p qs
  unfolding insert_entry_text
  insert_after h = rw h refl

  insert_before : text_less q.0 p.0 ≡ false → insert_entry_text p (q ∷ qs) ≡ p ∷ q ∷ qs
  unfolding insert_entry_text
  insert_before h = rw h refl

-- Entries of different keys may be inserted in either order.
pub insert_entry_text-swap :
    (p q : Text × Text) (entries : List (Text × Text))
    → text_eq p.0 q.0 ≡ false
    → insert_entry_text p (insert_entry_text q entries)
      ≡ insert_entry_text q (insert_entry_text p entries)
insert_entry_text-swap p q [] h = elim (Bool-cases (text_less p.0 q.0)) [
  | inl first ↦ unfold insert_entry_text in rw (text_less_total p.0 q.0 h, first) refl
  | inr second ↦ unfold insert_entry_text in rw (text_less_total p.0 q.0 h, second) refl
]
insert_entry_text-swap p q (r ∷ rs) h =
    let total = text_less_total p.0 q.0 h in
    elim (Bool-cases (text_less r.0 p.0)) [
      | inl rp ↦ elim (Bool-cases (text_less r.0 q.0)) [
        | inl rq ↦
            ap (insert_entry_text p) (insert_after q r rs rq)
            ∙ insert_after p r (insert_entry_text q rs) rp
            ∙ ap (λ l. r ∷ l) (insert_entry_text-swap p q rs h)
            ∙ sym (insert_after q r (insert_entry_text p rs) rq)
            ∙ ap (insert_entry_text q) (sym (insert_after p r rs rp))
        | inr rq ↦
            let qp = text_less_between r.0 q.0 p.0 rq rp in
            ap (insert_entry_text p) (insert_before q r rs rq)
            ∙ insert_after p q (r ∷ rs) qp
            ∙ ap (λ l. q ∷ l) (insert_after p r rs rp)
            ∙ sym (insert_before q r (insert_entry_text p rs) rq)
            ∙ ap (insert_entry_text q) (sym (insert_after p r rs rp))
      ]
      | inr rp ↦ elim (Bool-cases (text_less r.0 q.0)) [
        | inl rq ↦
            let pq = text_less_between r.0 p.0 q.0 rp rq in
            ap (insert_entry_text p) (insert_after q r rs rq)
            ∙ insert_before p r (insert_entry_text q rs) rp
            ∙ ap (λ l. p ∷ l) (sym (insert_after q r rs rq))
            ∙ sym (insert_after q p (r ∷ rs) pq)
            ∙ ap (insert_entry_text q) (sym (insert_before p r rs rp))
        | inr rq ↦
            ap (insert_entry_text p) (insert_before q r rs rq)
            ∙ (elim (Bool-cases (text_less p.0 q.0)) [
              | inl pq ↦
                  insert_before p q (r ∷ rs) (total ∙ ap not pq)
                  ∙ ap (λ l. p ∷ l) (sym (insert_before q r rs rq))
                  ∙ sym (insert_after q p (r ∷ rs) pq)
              | inr qp ↦
                  insert_after p q (r ∷ rs) (total ∙ ap not qp)
                  ∙ ap (λ l. q ∷ l) (insert_before p r rs rp)
                  ∙ sym (insert_before q p (r ∷ rs) qp)
            ])
            ∙ ap (insert_entry_text q) (sym (insert_before p r rs rp))
      ]
    ]
