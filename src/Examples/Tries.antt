-- ===== src/Examples/Tries.antt =====
-- The theorems on keys, encodings, leaves, tries and roots at concrete inputs.
use bbg.Prelude.{
  ℕ, ◌+◌, ◌-◌, ◌*◌, ◌/◌, ◌%◌, ◌^◌, ◌≡◌, ◌≢◌, ◌<◌, ◌≤◌, refl, Bool, true, false, Option, none, some,
  List, [], ◌∷◌, arith, length, ap, sym, ◌∙◌, Bool-cases, inl, inr, ◌⊎◌, All, if◌then◌else◌, ltb,
}
use bbg.Prelude.Ord.{Ord, beq, beq_iff, eq_of_beq}
use bbg.Bytes.{Bytes32, bytes32_ord, key_bit, first_diff_bit}
use bbg.Bytes.Bits.{first_diff_bit_first}
use bbg.Root.{Digest, RootLeaves}
use bbg.Root.Fold.{root_from_leaves-inj}
use bbg.Dim.Encoding.{bytes32_limbs-inj}
use bbg.Leaf.{leaf_digest}
use bbg.Leaf.Binding.{leaf_digest-inj, leaf_digest-IsLeafDigest, leaf_digest-not_empty}
use bbg.Trie.{Trie, TrieProof, new, set, remove, get, root, prove, verify, empty_digest}
use bbg.Trie.Invariant.{new-IsTrie}
use bbg.Trie.SetLaw.{SetLaw, set-SetLaw}
use bbg.Trie.RemoveLaw.{RemoveLaw, remove-RemoveLaw}
use bbg.Trie.Canonical.{root_digest, root-root_digest, root_unique, SameEntries}
use bbg.Trie.Proofs.{prove-verify}
use bbg.Trie.Soundness.{IsLeafDigest, Binds, verify_sound, forged_absence, forged_absence-verify}
use bbg.Examples.Toy.{num, low, high, mixed, toy, toy-IsCollisionFree}

abbrev low_digest : Digest
low_digest = leaf_digest low (num 3 ∷ [])

abbrev high_digest : Digest
high_digest = leaf_digest high (num 5 ∷ [])

abbrev one : Trie
one = (set new low low_digest).0

abbrev two : Trie
two = (set one high high_digest).0

one-SetLaw : SetLaw new low low_digest (set new low low_digest)
one-SetLaw = set-SetLaw new low low_digest new-IsTrie

two-SetLaw : SetLaw one high high_digest (set one high high_digest)
two-SetLaw = set-SetLaw one high high_digest one-SetLaw.valid

low-high : low ≢ high
low-high e = cc (ap (λ b. b.0) e)

mixed-low : mixed ≢ low
mixed-low e = cc (ap (λ b. b.0) e)

low-mixed : low ≢ mixed
low-mixed e = mixed-low (sym e)

-- The trie made in the other order.
abbrev swapped : Trie
swapped = (set (set new high high_digest).0 low low_digest).0

first-SetLaw : SetLaw new high high_digest (set new high high_digest)
first-SetLaw = set-SetLaw new high high_digest new-IsTrie

swapped-SetLaw :
    SetLaw
      (set new high high_digest).0
      low
      low_digest
      (set (set new high high_digest).0 low low_digest)
swapped-SetLaw = set-SetLaw (set new high high_digest).0 low low_digest first-SetLaw.valid

two-swapped : SameEntries two swapped
two-swapped q = ground (
  arith,
  two-SetLaw.gets q,
  one-SetLaw.gets q,
  swapped-SetLaw.gets q,
  first-SetLaw.gets q,
  beq_iff low q,
  beq_iff high q,
  low-high,
)

held : get two low ≡ some low_digest
held =
    ground
      (arith, two-SetLaw.gets low, one-SetLaw.gets low, beq_iff low low, beq_iff high low, low-high)

set-SetLaw_example : SetLaw two mixed low_digest (set two mixed low_digest)
set-SetLaw_example = set-SetLaw two mixed low_digest two-SetLaw.valid

remove-RemoveLaw_example : RemoveLaw two high (remove two high)
remove-RemoveLaw_example = remove-RemoveLaw two high two-SetLaw.valid

root_unique_example : ((root two).1 ≡ (root swapped).1) × (two.len ≡ swapped.len)
root_unique_example = root_unique two swapped two-SetLaw.valid swapped-SetLaw.valid two-swapped

root-root_digest_example : (root two).1 ≡ root_digest two.root
root-root_digest_example = root-root_digest two two-SetLaw.valid

prove-verify_example : verify (prove two high).1 (root two).1 high (get two high) ≡ some true
prove-verify_example = prove-verify two high two-SetLaw.valid

forged_absence_example :
    verify (forged_absence mixed (root two).1) (root two).1 low none ≡ some true
forged_absence_example = forged_absence-verify two low mixed mixed-low

first_diff_bit_example :
    (first_diff_bit low high < 256)
    × (key_bit low (first_diff_bit low high) ≢ key_bit high (first_diff_bit low high))
    × ((m : ℕ) → m < first_diff_bit low high → key_bit low m ≡ key_bit high m)
first_diff_bit_example = first_diff_bit_first low high low-high

leaf_digest-inj_example : (low ≡ low) × (num 3 ∷ [] ≡ num 3 ∷ [])
leaf_digest-inj_example =
    leaf_digest-inj toy-IsCollisionFree low low (num 3 ∷ []) (num 3 ∷ []) refl refl

leaf_digest-IsLeafDigest_example : IsLeafDigest (leaf_digest low (num 3 ∷ []))
leaf_digest-IsLeafDigest_example = leaf_digest-IsLeafDigest toy-IsCollisionFree low (num 3 ∷ [])

abbrev number : ℕ
number = 0x100000005

bytes32_limbs-inj_example : mixed ≡ mixed
bytes32_limbs-inj_example = bytes32_limbs-inj toy-IsCollisionFree mixed mixed refl

abbrev dims : List Digest
dims =
    low_digest ∷ high_digest ∷ low_digest ∷ high_digest ∷ low_digest ∷ high_digest ∷ low_digest
    ∷ high_digest ∷ low_digest ∷ high_digest ∷ low_digest ∷ []

abbrev root_leaves : RootLeaves
root_leaves = record { dims = dims; a = low_digest; n = empty_digest; stats = high_digest }

root_from_leaves-inj_example :
    (dims ≡ dims)
    × (low_digest ≡ low_digest)
    × (empty_digest ≡ empty_digest)
    × (high_digest ≡ high_digest)
root_from_leaves-inj_example =
    root_from_leaves-inj toy-IsCollisionFree root_leaves root_leaves refl refl refl

digests-differ : low_digest ≢ high_digest
digests-differ e =
    low-high (leaf_digest-inj toy-IsCollisionFree low high (num 3 ∷ []) (num 5 ∷ []) refl e).0

get-two :
    (k : Bytes32)
    → get two k
      ≡ (if beq high k then some high_digest else (if beq low k then some low_digest else none))
unfolding get
get-two k = ground (arith, two-SetLaw.gets k, one-SetLaw.gets k)

two-entries : (k : Bytes32) (d : Digest) → get two k ≡ some d → (d ≡ low_digest) ⊎ (d ≡ high_digest)
two-entries k d h = elim (Bool-cases (beq high k)) [
  | inl e ↦ inr (cc (rw e at (sym (get-two k) ∙ h)))
  | inr e ↦ elim (Bool-cases (beq low k)) [
    | inl f ↦ inl (cc (rw (e, f) at (sym (get-two k) ∙ h)))
    | inr f ↦ absurd (cc (rw (e, f) at (sym (get-two k) ∙ h)))
  ]
]

two-Binds : Binds two low low_digest
two-Binds = record {
  leaf_digests = λ k d h. elim (two-entries k d h) [
    | inl e ↦ rw e (leaf_digest-IsLeafDigest toy-IsCollisionFree low (num 3 ∷ []))
    | inr e ↦ rw e (leaf_digest-IsLeafDigest toy-IsCollisionFree high (num 5 ∷ []))
  ];
  claimed = leaf_digest-IsLeafDigest toy-IsCollisionFree low (num 3 ∷ []);
  not_empty = leaf_digest-not_empty toy-IsCollisionFree low (num 3 ∷ []);
  only_key = λ k h. elim (Bool-cases (beq high k)) [
    | inl e ↦ absurd (digests-differ (cc (rw e at (sym (get-two k) ∙ h))))
    | inr e ↦ elim (Bool-cases (beq low k)) [
      | inl f ↦ sym (eq_of_beq low k f)
      | inr f ↦ absurd (cc (rw (e, f) at (sym (get-two k) ∙ h)))
    ]
  ];
}

abbrev low_proof : TrieProof
low_proof = record { steps = (0, high_digest) ∷ []; terminal = some (low, low_digest) }

low_proof-made : (prove two low).1 ≡ low_proof
unfolding prove set key_bit first_diff_bit bytes32_ord bbg.Prelude.Ord.cmp_list
low_proof-made = refl

verify_sound_example : get two low ≡ some low_digest
verify_sound_example =
    verify_sound toy-IsCollisionFree two low_proof low low_digest two-SetLaw.valid (omega arith, tt)
      two-Binds
      (ap (λ p. verify p (root two).1 low (some low_digest)) (sym low_proof-made)
        ∙ ap (verify (prove two low).1 (root two).1 low) (sym held)
        ∙ prove-verify two low two-SetLaw.valid)
