-- ===== src/Audit/Chain.antt =====
-- What the hash chain of libs/audit/receipts.py gives: issued chains verify, and a verified chain is
-- determined by its last hash.
use text.Mathlib.TextLemmas.{append_inj, length-append}
use Prim.Native.String.{◌++◌, count}
use project_k_platform.Prelude.{
  String, ◌≡◌, ◌≢◌, ◌⊎◌, refl, inl, inr, Bool, true, false, ◌&&◌, Option, none, some, List, [], ◌∷◌,
  length, map, arith, eq_iff, Bool-cases, ap, if◌then◌else◌,
}
use project_k_platform.Prelude.Eq.{◌==◌, string_eq, beq_refl, beq_ne}
use project_k_platform.Prelude.Result.{ok}
use project_k_platform.Audit.{
  Facts, DecisionReceipt, ReceiptSigner, Draft, create_receipt, sign, signed, unsigned, link, bare,
  is_hash, verify_from, verify_chain, issue,
}

module _ (sha256 : String → String) (hmac : String → String → String) (json : Facts → String)
    (json_of : DecisionReceipt → String) where
  created :
      (s : ReceiptSigner) (d : Draft) (previous : Option String)
      → s.mode ≡ "hmac"
      → create_receipt sha256 hmac json json_of s d previous
        ≡ ok (
            signed sha256 hmac json json_of d previous
              (hmac s.key (json_of (unsigned sha256 json d))))
  unfolding create_receipt sign
  created s d previous h = simp h

  issue-verify_from :
      (s : ReceiptSigner) (previous : Option String) (ds : List Draft)
      → s.mode ≡ "hmac"
      → (rs : List DecisionReceipt) × (issue sha256 hmac json json_of s previous ds ≡ ok rs)
        × (verify_from sha256 json_of previous rs ≡ true)
        × (map bare rs ≡ map (unsigned sha256 json) ds)
  unfolding issue verify_from
  issue-verify_from s previous [] h = ([], refl, refl, refl)
  issue-verify_from s previous (d ∷ ds) h =
      let hash = link sha256 (json_of (unsigned sha256 json d)) previous in
      let (rs, e, v, m) = issue-verify_from s (some hash) ds h in
      let signature = hmac s.key (json_of (unsigned sha256 json d)) in
      (
        signed sha256 hmac json json_of d previous signature ∷ rs,
        rw (created s d previous h, e),
        rw beq_refl v,
        ap (λ ms. unsigned sha256 json d ∷ ms) m,
      )

-- The hash of a chain's last receipt.
abbrev pub last_hash : Option String → List DecisionReceipt → Option String
last_hash prev [] = prev
last_hash prev (r ∷ rs) = last_hash r.chain_hash rs

-- One of the texts of a list.
abbrev pub Among : String → List String → Type 0
Among x [] = ⊥
Among x (y ∷ ys) = (x ≡ y) ⊎ Among x ys

-- The text whose digest is the hash of a receipt with these bytes, after one with this hash.
abbrev pub hashed_text : String → Option String → String
hashed_text bytes none = bytes
hashed_text bytes (some h) = if h == "" then bytes else bytes ++ h

-- The texts whose digests are the hashes of a chain.
abbrev pub hashed_texts :
    (DecisionReceipt → String) → Option String → List DecisionReceipt → List String
hashed_texts json_of prev [] = []
hashed_texts json_of prev (r ∷ rs) =
    hashed_text (json_of (bare r)) prev ∷ hashed_texts json_of r.chain_hash rs

module _ (sha256 : String → String) where
  -- A text of each list, different ones with one digest.
  abbrev pub Collide : List String → List String → Type 0
  Collide xs ys =
      (x : String) × (y : String) × Among x xs × Among y ys × (x ≢ y) × (sha256 x ≡ sha256 y)

  Collide-here :
      (x y : String) (xs ys : List String) → x ≢ y → sha256 x ≡ sha256 y → Collide (x ∷ xs) (y ∷ ys)
  Collide-here x y xs ys n e = (x, y, inl refl, inl refl, n, e)

  Collide-later : (x y : String) (xs ys : List String) → Collide xs ys → Collide (x ∷ xs) (y ∷ ys)
  Collide-later x y xs ys (u, v, m, n, d, e) = (u, v, inr m, inr n, d, e)

  String-cases : (x y : String) → (x ≢ y) ⊎ (x ≡ y)
  String-cases x y = elim (Bool-cases (x == y)) [
    | inl e ↦ inr ((eq_iff x y).0 e)
    | inr e ↦ inl (λ q. ground (arith, eq_iff x y))
  ]

  link-hashed_text : (b : String) (p : Option String) → link sha256 b p ≡ sha256 (hashed_text b p)
  link-hashed_text b none = refl
  link-hashed_text b (some h) = elim (Bool-cases (h == "")) [
    | inl e ↦ rw e refl
    | inr e ↦ rw e refl
  ]

  -- Previous hashes at the same place of two chains: none of either, or one digest of each.
  abbrev Abreast : Option String → Option String → Type 0
  Abreast none none = Unit
  Abreast none (some g) = ⊥
  Abreast (some h) none = ⊥
  Abreast (some h) (some g) = (count h ≡ 64) × (count g ≡ 64)

  count-ne_empty : (h : String) → count h ≡ 64 → h ≢ ""
  count-ne_empty h n e = omega (arith, n, ap count e)

  hashed_text-digest : (b h : String) → count h ≡ 64 → hashed_text b (some h) ≡ b ++ h
  hashed_text-digest b h n = rw (beq_ne (count-ne_empty h n)) refl

  same_parts : (b c f g : String) → count f ≡ count g → b ++ f ≡ c ++ g → (b ≡ c) × (f ≡ g)
  same_parts b c f g n e =
      append_inj e (omega (arith, length-append b f, length-append c g, ap count e))

  hashed_text-inj :
      (b c : String) (p q : Option String)
      → Abreast p q
      → hashed_text b p ≡ hashed_text c q
      → (b ≡ c) × (p ≡ q)
  hashed_text-inj b c none none a h = (h, refl)
  hashed_text-inj b c none (some g) a h = absurd a
  hashed_text-inj b c (some f) none a h = absurd a
  hashed_text-inj b c (some f) (some g) (m, n) h =
      let (e, d) =
        same_parts b c f g (cc (m, n))
          (cc (hashed_text-digest b f m, hashed_text-digest c g n, h)) in
      (e, ap some d)

  is_hash-eq : (o : Option String) (h : String) → is_hash o h ≡ true → o ≡ some h
  is_hash-eq none h e = cc
  is_hash-eq (some g) h e = ap some ((eq_iff g h).0 e)

  link-count :
      (b : String) (p : Option String)
      → ((x : String) → count (sha256 x) ≡ 64)
      → count (link sha256 b p) ≡ 64
  link-count b none digests = digests b
  link-count b (some h) digests = elim (Bool-cases (h == "")) [
    | inl e ↦ rw e (digests b)
    | inr e ↦ rw e (digests (b ++ h))
  ]

  both-true : (a b : Bool) → (a && b) ≡ true → (a ≡ true) × (b ≡ true)
  both-true true b h = (refl, h)
  both-true false b h = cc

  module _ (json_of : DecisionReceipt → String)
      (digests : (x : String) → count (sha256 x) ≡ 64) where
    -- The bytes of a receipt that its hash is taken of.
    abbrev pub receipt_bytes : DecisionReceipt → String
    receipt_bytes r = json_of (bare r)

    verify_from_unique :
        (p q : Option String) (rs ts : List DecisionReceipt)
        → Abreast p q
        → verify_from sha256 json_of p rs ≡ true
        → verify_from sha256 json_of q ts ≡ true
        → length rs ≡ length ts
        → last_hash p rs ≡ last_hash q ts
        → Collide (hashed_texts json_of p rs) (hashed_texts json_of q ts)
          ⊎ ((p ≡ q) × (map receipt_bytes rs ≡ map receipt_bytes ts))
    unfolding verify_from
    verify_from_unique p q [] [] a v w n l = inr (l, refl)
    verify_from_unique p q [] (t ∷ ts) a v w n l = cc
    verify_from_unique p q (r ∷ rs) [] a v w n l = cc
    verify_from_unique p q (r ∷ rs) (t ∷ ts) a v w n l =
        let (v₁, v₂) = both-true _ _ v in
        let (w₁, w₂) = both-true _ _ w in
        let e = is_hash-eq r.chain_hash _ v₁ in
        let d = is_hash-eq t.chain_hash _ w₁ in
        let abreast : Abreast r.chain_hash t.chain_hash =
          rw (e, d)
            (link-count (receipt_bytes r) p digests, link-count (receipt_bytes t) q digests) in
        let x = hashed_text (receipt_bytes r) p in
        let y = hashed_text (receipt_bytes t) q in
        let later =
          verify_from_unique r.chain_hash t.chain_hash rs ts abreast v₂ w₂ (omega (arith, n)) l in
        elim later [
          | inl k ↦ inl (Collide-later x y _ _ k)
          | inr (h, m) ↦
              let digests_agree : sha256 x ≡ sha256 y = cc (
                e,
                d,
                h,
                link-hashed_text (receipt_bytes r) p,
                link-hashed_text (receipt_bytes t) q,
              ) in
              elim (String-cases x y) [
                | inl differ ↦ inl (Collide-here x y _ _ differ digests_agree)
                | inr same ↦
                    let (b, prev) =
                      hashed_text-inj (receipt_bytes r) (receipt_bytes t) p q a same in
                    inr (prev, cc (b, m))
              ]
        ]

-- Where a signer has the mode "hmac", receipts issued one after another, each with the hash of the one
-- before, exist, verify as a chain, and hold the content that they were asked for, in order.
pub issue-verify_chain :
    (sha256 : String → String) (hmac : String → String → String) (json : Facts → String)
    (json_of : DecisionReceipt → String) (s : ReceiptSigner) (ds : List Draft)
    → s.mode ≡ "hmac"
    → (rs : List DecisionReceipt) × (issue sha256 hmac json json_of s none ds ≡ ok rs)
      × (verify_chain sha256 json_of rs ≡ true)
      × (map bare rs ≡ map (unsigned sha256 json) ds)
unfolding verify_chain
issue-verify_chain sha256 hmac json json_of s ds h =
    issue-verify_from sha256 hmac json json_of s none ds h

-- If two chains of one length verify and end in the same hash, then all their receipts have the same
-- bytes, signatures and hashes aside, or two different texts have one digest, one of them hashed for
-- a receipt of the first chain and the other for one of the second; a digest has 64 characters.
pub verify_chain_unique :
    (sha256 : String → String) (json_of : DecisionReceipt → String) (rs ts : List DecisionReceipt)
    → ((x : String) → count (sha256 x) ≡ 64)
    → verify_chain sha256 json_of rs ≡ true
    → verify_chain sha256 json_of ts ≡ true
    → length rs ≡ length ts
    → last_hash none rs ≡ last_hash none ts
    → Collide sha256 (hashed_texts json_of none rs) (hashed_texts json_of none ts)
      ⊎ (map (λ r. json_of (bare r)) rs ≡ map (λ r. json_of (bare r)) ts)
unfolding verify_chain
verify_chain_unique sha256 json_of rs ts digests v w n l =
    elim (verify_from_unique sha256 json_of digests none none rs ts tt v w n l) [
      | inl k ↦ inl k
      | inr (_, m) ↦ inr m
    ]
