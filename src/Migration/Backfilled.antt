-- ===== src/Migration/Backfilled.antt =====
-- What a backfill of migration 003 leaves in a table.
use mathlib.Core.List.{append_assoc}
use project_k_platform.Prelude.{
  ℕ, zero, suc, ◌+◌, ◌≤◌, ◌<◌, ◌≡◌, refl, ◌∙◌, ap, sym, subst, Option, some, List, [], ◌∷◌, ◌++◌,
  length, arith, length-append, ◌⊎◌, inl, inr,
}
use project_k_platform.Prelude.Eq.{string_eq}
use project_k_platform.Migration.{
  Row, Column, Crypto, take, drop, after_select, backfill_from, backfill_table,
}
use project_k_platform.Migration.Batches.{
  AreDistinct, ids, ids-append, backfilled, backfilled-ids, after_rows, backfill_rows-between,
  backfilled-append, after_rows-append, length-backfilled, drop-beyond, drop-length, take-drop,
  length-take, length-drop, take-full,
}

abbrev IsCons {ℓ} : {A : Type ℓ} → List A → Type 0
IsCons [] = ⊥
IsCons (x ∷ xs) = Unit

module _ {Bytes : Type 0} (c : Crypto Bytes) (cols : List Column) where
  -- One round, whose batch is b, before the rows t.
  after_select-between :
      (n : ℕ) (d b t : List (Row Bytes)) (r : Row Bytes)
      (rest : ℕ → List (Row Bytes) → Option (List (Row Bytes) × ℕ))
      → AreDistinct (ids (d ++ ((r ∷ b) ++ t)))
      → after_select c cols n (r ∷ b) (d ++ ((r ∷ b) ++ t)) rest
        ≡ rest (after_rows c cols n (r ∷ b)) ((d ++ backfilled c cols n (r ∷ b)) ++ t)
  after_select-between n d b t r rest h =
      ap (λ p. rest p.1 p.0) (backfill_rows-between c cols n (r ∷ b) d t h)
      ∙ ap (rest (after_rows c cols n (r ∷ b))) (sym (append_assoc d _ t))

  ids-between :
      (n : ℕ) (d b t : List (Row Bytes))
      → ids ((d ++ backfilled c cols n b) ++ t) ≡ ids (d ++ (b ++ t))
  ids-between n d b t =
      ids-append (d ++ backfilled c cols n b) t
      ∙ ap (λ l. l ++ ids t)
          (ids-append d (backfilled c cols n b)
            ∙ ap (λ l. ids d ++ l) (backfilled-ids c cols n b)
            ∙ sym (ids-append d b))
      ∙ sym (ids-append (d ++ b) t)
      ∙ ap ids (append_assoc d b t)

  backfilled-between :
      (n : ℕ) (d b t : List (Row Bytes))
      → (d ++ backfilled c cols n b) ++ backfilled c cols (after_rows c cols n b) t
        ≡ d ++ backfilled c cols n (b ++ t)
  backfilled-between n d b t =
      append_assoc d (backfilled c cols n b) _
      ∙ ap (λ l. d ++ l) (sym (backfilled-append c cols n b t))

  length-between :
      (l n : ℕ) (d rs : List (Row Bytes)) (r : Row Bytes)
      → length (d ++ backfilled c cols n (r ∷ take l rs)) ≡ length d + suc (length (take l rs))
  length-between l n d rs r =
      length-append d (backfilled c cols n (r ∷ take l rs))
      ∙ ap (λ k. length d + k) (length-backfilled c cols n (r ∷ take l rs))

  -- What is left after a full batch or a short one.
  left-between :
      (l n : ℕ) (d rs : List (Row Bytes)) (r : Row Bytes)
      → (drop l rs ≡ []) ⊎ (length (d ++ backfilled c cols n (r ∷ take l rs)) ≡ length d + suc l)
  left-between l n d rs r = elim (take-full l rs) [
    | inl e ↦ inl e
    | inr e ↦ inr (omega (arith, length-between l n d rs r, e))
  ]

  -- The rows that are left are filled, if the fuel exceeds their number.
  pub backfill_from-backfilled :
      (fuel l offset n : ℕ) (d rest : List (Row Bytes))
      → length rest < fuel
      → length d ≤ offset
      → (rest ≡ []) ⊎ (length d ≡ offset)
      → AreDistinct (ids (d ++ rest))
      → backfill_from c fuel (suc l) offset cols n (d ++ rest)
        ≡ some (d ++ backfilled c cols n rest, after_rows c cols n rest)
  backfill_from-backfilled zero l offset n d rest h o e h' = absurd (omega (arith, h))
  backfill_from-backfilled (suc fuel) l offset n d [] h o e h' = rw (drop-beyond offset d o) refl
  backfill_from-backfilled (suc fuel) l offset n d (r ∷ rs) h o (inl e) h' =
      absurd (subst IsCons e tt)
  backfill_from-backfilled (suc fuel) l offset n d (r ∷ rs) h o (inr e) h' =
      let b = r ∷ take l rs in
      let t = drop l rs in
      let d' = d ++ backfilled c cols n b in
      let n' = after_rows c cols n b in
      let rest = backfill_from c fuel (suc l) (offset + suc l) cols in
      let whole = ap (λ q. d ++ r ∷ q) (take-drop l rs) in
      let apart = subst (λ q. AreDistinct (ids q)) (sym whole) h' in
      let batch =
        ap (λ k. take (suc l) (drop k (d ++ r ∷ rs))) (sym e)
        ∙ ap (take (suc l)) (drop-length d (r ∷ rs)) in
      ap (λ s. after_select c cols n s (d ++ r ∷ rs) rest) batch
      ∙ ap (λ q. after_select c cols n b q rest) (sym whole)
      ∙ after_select-between n d (take l rs) t r rest apart
      ∙ backfill_from-backfilled fuel l (offset + suc l) n' d' t
          (omega (arith, h, length-drop l rs))
          (omega (arith, length-between l n d rs r, length-take l rs, o))
          (elim (left-between l n d rs r) [
            | inl done ↦ inl done
            | inr full ↦ inr (omega (arith, full, e))
          ])
          (subst AreDistinct (sym (ids-between n d b t)) apart)
      ∙ ap (λ q. some (q, after_rows c cols n' t)) (backfilled-between n d b t)
      ∙ ap (λ k. some (d ++ backfilled c cols n (b ++ t), k)) (sym (after_rows-append c cols n b t))
      ∙ ap (λ q. some (d ++ backfilled c cols n (r ∷ q), after_rows c cols n (r ∷ q)))
          (take-drop l rs)

  -- The batches of a table whose ids are distinct end, if the fuel exceeds the number of rows, with
  -- what one pass over the rows gives: each row with the updates of its own columns, and the nonces
  -- numbered in that order.
  pub backfill_table-backfilled :
      (fuel n : ℕ) (t : List (Row Bytes))
      → length t < fuel
      → AreDistinct (ids t)
      → backfill_table c fuel cols n t ≡ some (backfilled c cols n t, after_rows c cols n t)
  unfolding backfill_table
  backfill_table-backfilled fuel n t h h' =
      backfill_from-backfilled fuel 999 0 n [] t h (omega arith) (inr refl) h'
