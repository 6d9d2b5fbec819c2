-- ===== src/Examples/Toy.antt =====
-- A permutation without collisions, over terms in place of field elements: what it returns are the
-- elements that it was given, paired with the place of the output. With it, keys to test on.
use native.Mathlib.Decide.{ℕ_discrete}
use bbg.Prelude.{ℕ, ◌≡◌, refl, List, [], ◌∷◌, true, map, length, ◌==◌, ◌&&◌, ap}
use bbg.Bytes.{Bytes32, are_bytes}
use bbg.Root.{Hemera, Digest, IsCollisionFree, compress4}

pub data Term : Type 0 where
  num : ℕ → Term
  pair : Term → Term → Term

abbrev pub as_number : Term → ℕ
as_number (num n) = n
as_number (pair a b) = 0

abbrev pub encode : List Term → Term
encode [] = num 0
encode (t ∷ ts) = pair t (encode ts)

pub Term-discrete : Discrete Term
Term-discrete = hlevel ℕ_discrete

abbrev pub zeros_bytes : List ℕ
zeros_bytes =
    0 ∷ 0 ∷ 0 ∷ 0 ∷ 0 ∷ 0 ∷ 0 ∷ 0 ∷ 0 ∷ 0 ∷ 0 ∷ 0 ∷ 0 ∷ 0 ∷ 0 ∷ 0 ∷ 0 ∷ 0 ∷ 0 ∷ 0 ∷ 0 ∷ 0 ∷ 0 ∷ 0
    ∷ 0 ∷ 0 ∷ 0 ∷ 0 ∷ 0 ∷ 0 ∷ 0 ∷ 0 ∷ []

pub zeros-fits : (length zeros_bytes == 32 && are_bytes zeros_bytes) ≡ true
unfolding are_bytes
zeros-fits = refl

abbrev pub zeros : Bytes32
zeros = (zeros_bytes, zeros-fits)

abbrev pub low_bytes : List ℕ
low_bytes =
    0 ∷ 0 ∷ 0 ∷ 0 ∷ 0 ∷ 0 ∷ 0 ∷ 0 ∷ 0 ∷ 0 ∷ 0 ∷ 0 ∷ 0 ∷ 0 ∷ 0 ∷ 0 ∷ 0 ∷ 0 ∷ 0 ∷ 0 ∷ 0 ∷ 0 ∷ 0 ∷ 0
    ∷ 0 ∷ 0 ∷ 0 ∷ 0 ∷ 0 ∷ 0 ∷ 0 ∷ 1 ∷ []

pub low-fits : (length low_bytes == 32 && are_bytes low_bytes) ≡ true
unfolding are_bytes
low-fits = refl

abbrev pub low : Bytes32
low = (low_bytes, low-fits)

abbrev pub high_bytes : List ℕ
high_bytes =
    128 ∷ 0 ∷ 0 ∷ 0 ∷ 0 ∷ 0 ∷ 0 ∷ 0 ∷ 0 ∷ 0 ∷ 0 ∷ 0 ∷ 0 ∷ 0 ∷ 0 ∷ 0 ∷ 0 ∷ 0 ∷ 0 ∷ 0 ∷ 0 ∷ 0 ∷ 0 ∷ 0
    ∷ 0 ∷ 0 ∷ 0 ∷ 0 ∷ 0 ∷ 0 ∷ 0 ∷ 0 ∷ []

pub high-fits : (length high_bytes == 32 && are_bytes high_bytes) ≡ true
unfolding are_bytes
high-fits = refl

abbrev pub high : Bytes32
high = (high_bytes, high-fits)

abbrev pub mixed_bytes : List ℕ
mixed_bytes =
    128 ∷ 0 ∷ 0 ∷ 0 ∷ 0 ∷ 0 ∷ 0 ∷ 0 ∷ 0 ∷ 0 ∷ 0 ∷ 0 ∷ 0 ∷ 0 ∷ 0 ∷ 0 ∷ 0 ∷ 0 ∷ 0 ∷ 0 ∷ 0 ∷ 0 ∷ 0 ∷ 0
    ∷ 0 ∷ 0 ∷ 0 ∷ 0 ∷ 0 ∷ 0 ∷ 0 ∷ 5 ∷ []

pub mixed-fits : (length mixed_bytes == 32 && are_bytes mixed_bytes) ≡ true
unfolding are_bytes
mixed-fits = refl

abbrev pub mixed : Bytes32
mixed = (mixed_bytes, mixed-fits)

instance abbrev pub toy : Hemera
toy = record {
  Field = Term;
  new = num;
  fzero = num 0;
  as_u64 = as_number;
  field_discrete = Term-discrete;
  HGold = Term;
  hzero = num 0;
  to_hgold = λ t. t;
  of_hgold = λ t. t;
  permute = λ state. map (λ i. pair (num i) (encode state)) (0 ∷ 1 ∷ 2 ∷ 3 ∷ []);
  hash = λ bytes. zeros;
}

Digest_ext :
    (a b : Digest)
    → a.limb0 ≡ b.limb0
    → a.limb1 ≡ b.limb1
    → a.limb2 ≡ b.limb2
    → a.limb3 ≡ b.limb3
    → a ≡ b
Digest_ext a b p q r s = λ i. record { limb0 = p i; limb1 = q i; limb2 = r i; limb3 = s i }

pub toy-IsCollisionFree : IsCollisionFree
unfolding compress4
toy-IsCollisionFree = record {
  compress_inj = λ a b c d h.
      let e = ap (λ d. d.limb0) h in
      (Digest_ext a c (cc e) (cc e) (cc e) (cc e), Digest_ext b d (cc e) (cc e) (cc e) (cc e));
  output_limb3 = λ a b h. cc h;
  new_inj = λ x y _ _ h. cc h;
}
