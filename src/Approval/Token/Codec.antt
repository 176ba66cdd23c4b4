-- ===== src/Approval/Token/Codec.antt =====
-- Encoding without padding and decoding with the padding put back.
use zj_cyber_workbench.Prelude.{
  nat_eq, length, ℕ, zero, suc, ◌+◌, ◌%◌, ◌<◌, ◌≡◌, refl, ap, true, some, List, [], ◌∷◌, ◌++◌,
  arith,
}
use zj_cyber_workbench.Approval.Platform.{Platform, NoneOf, equals_sign, dot, repeat, PlatformLaws}
use zj_cyber_workbench.Approval.Token.{
  rstrip_equals, split_dot, padding_of, same_bytes, encode, decode,
}

rstrip_equals-repeat : (n : ℕ) → rstrip_equals (repeat n equals_sign) ≡ []
unfolding rstrip_equals
rstrip_equals-repeat zero = refl
rstrip_equals-repeat (suc n) = ground (arith, rstrip_equals-repeat n)

rstrip_equals-append :
    (xs : List ℕ) (n : ℕ)
    → NoneOf (equals_sign ∷ dot ∷ []) xs
    → rstrip_equals (xs ++ repeat n equals_sign) ≡ xs
unfolding rstrip_equals
rstrip_equals-append [] n h = rstrip_equals-repeat n
rstrip_equals-append (x ∷ []) n h = ground (arith, rstrip_equals-repeat n)
rstrip_equals-append (x ∷ y ∷ xs) n h = ground (arith, rstrip_equals-append (y ∷ xs) n h.1)

padding_of-aligned : (n k : ℕ) → k < 4 → (n + k) % 4 ≡ 0 → padding_of n ≡ k
unfolding padding_of
padding_of-aligned n k h e = omega arith

decode-padded :
    (p : Platform) (v : List ℕ) (k : ℕ)
    → padding_of (length v) ≡ k
    → decode p v ≡ p.urlsafe_b64decode (v ++ repeat k equals_sign)
unfolding decode
decode-padded p v k e = ap (λ n. p.urlsafe_b64decode (v ++ repeat n equals_sign)) e

module _ {p : Platform} (laws : PlatformLaws p) where
  -- Decoding undoes encoding, though the padding is not transmitted.
  pub decode-encode : (bytes : List ℕ) → decode p (encode p bytes) ≡ some bytes
  unfolding encode
  decode-encode bytes =
      let f = laws.encoded bytes in
      let stripped : rstrip_equals (p.urlsafe_b64encode bytes) ≡ f.body =
        rw f.split (rstrip_equals-append f.body f.pad f.alphabet) in
      rw
        (
          stripped,
          decode-padded p f.body f.pad (padding_of-aligned (length f.body) f.pad f.short f.aligned),
          ← f.split,
        )
        (laws.decode-encode bytes)

  pub encode-NoneOf : (bytes : List ℕ) → NoneOf (equals_sign ∷ dot ∷ []) (encode p bytes)
  unfolding encode
  encode-NoneOf bytes =
      let f = laws.encoded bytes in
      rw f.split (rw (rstrip_equals-append f.body f.pad f.alphabet) f.alphabet)

pub split_dot-append :
    (xs ys : List ℕ)
    → NoneOf (equals_sign ∷ dot ∷ []) xs
    → split_dot (xs ++ (dot ∷ ys)) ≡ some (xs, ys)
unfolding split_dot
split_dot-append [] ys h = refl
split_dot-append (x ∷ xs) ys h = ground (arith, split_dot-append xs ys h.1)

pub same_bytes_refl : (xs : List ℕ) → same_bytes xs xs ≡ true
unfolding same_bytes
same_bytes_refl [] = refl
same_bytes_refl (x ∷ xs) = ground (arith, same_bytes_refl xs)

pub same_bytes_eq : (xs ys : List ℕ) → same_bytes xs ys ≡ true → xs ≡ ys
unfolding same_bytes
same_bytes_eq [] [] h = refl
same_bytes_eq [] (y ∷ ys) h = cc
same_bytes_eq (x ∷ xs) [] h = cc
same_bytes_eq (x ∷ xs) (y ∷ ys) h = ground (arith, same_bytes_eq xs ys)
