-- ===== src/Examples/Dimensions.antt =====
-- The theorems on maps and dimensions at concrete inputs.
use bbg.Prelude.{
  ℕ, ◌≡◌, ◌≢◌, refl, Bool, true, false, Option, none, some, List, [], ◌∷◌, arith, length, ap, sym,
  ◌∙◌, ◌<◌,
}
use bbg.Prelude.Ord.{Ord, nat_ord, beq, beq_iff}
use bbg.Bytes.{Bytes32, bytes32_ord, key_bit, first_diff_bit}
use bbg.Map
use bbg.Map.{Map}
use bbg.Map.Sorted.{SameGets}
use bbg.Map.Laws.{get-insert}
use bbg.Trie.{TrieProof, verify, from_entries, root, prove as trie_prove, set as trie_set}
use bbg.Keyed.{
  LeafValue, Keyed, bytes32_key, empty, insert, commitment, legacy_commitment, prove, leaf, flush,
  touched,
}
use bbg.Keyed.Entries.{leaf_of}
use bbg.Keyed.Invariant.{IsKeyed, empty-IsKeyed, insert-IsKeyed}
use bbg.Keyed.Commitment.{prove-commitment, commitment-IsKeyed}
use bbg.Keyed.Commitment.Runs.{Call, run, run_map, leaves, run-commitment}
use bbg.Keyed.Soundness.{IsInjective, commitment_sound}
use bbg.Examples.Toy.{Term, num, zeros, low, high, mixed, toy, toy-IsCollisionFree}

instance abbrev fields : LeafValue Term
fields = record { leaf_vals = λ x. x ∷ [] }

low-high : low ≢ high
low-high e = cc (ap (λ b. b.0) e)

abbrev start : Keyed Bytes32 Term
start = empty

abbrev one : Keyed Bytes32 Term
one = (insert low (num 3) start).0

abbrev two : Keyed Bytes32 Term
two = (insert high (num 5) one).0

one-IsKeyed : IsKeyed one
one-IsKeyed = insert-IsKeyed low (num 3) start empty-IsKeyed

two-IsKeyed : IsKeyed two
two-IsKeyed = insert-IsKeyed high (num 5) one one-IsKeyed

-- The same records, in the other order, with a read between.
abbrev other : Keyed Bytes32 Term
other = (insert low (num 3) (commitment (insert high (num 5) start).0).0).0

other-IsKeyed : IsKeyed other
other-IsKeyed = insert-IsKeyed low (num 3) (commitment (insert high (num 5) start).0).0 (
    commitment-IsKeyed (insert high (num 5) start).0
      (insert-IsKeyed high (num 5) start empty-IsKeyed))

two-other : SameGets two.map other.map
unfolding insert commitment flush touched empty
two-other q = ground (
  arith,
  get-insert high (num 5) (Map.insert low (num 3) []) q,
  get-insert low (num 3) [] q,
  get-insert low (num 3) (Map.insert high (num 5) []) q,
  get-insert high (num 5) [] q,
  beq_iff low q,
  beq_iff high q,
  beq_iff q low,
  beq_iff q high,
  low-high,
)

prove-commitment_example :
    verify (prove two mixed).1 (commitment two).1 mixed (leaf_of mixed (Map.get mixed two.map))
    ≡ some true
prove-commitment_example = prove-commitment two mixed two-IsKeyed

abbrev calls : List (Call Bytes32 Term)
calls =
    Call.put low (num 3)
    ∷ Call.put high (num 5)
    ∷ Call.read
    ∷ Call.read_legacy
    ∷ Call.delete low
    ∷ Call.write high (λ v. num 8)
    ∷ Call.write_or mixed (num 1) (λ v. num 2)
    ∷ []

abbrev size_of : Map Bytes32 Term → Bytes32
size_of m = elim m [ [] ↦ zeros | ◌∷◌ e rest ↦ e.0 ]

run-commitment_example :
    ((run size_of calls empty).map ≡ run_map size_of calls [])
    × ((commitment (run size_of calls empty)).1
        ≡ (root (from_entries (leaves size_of (run_map size_of calls [])))).1)
    × ((legacy_commitment (run size_of calls empty) size_of).1 ≡ size_of (run_map size_of calls []))
run-commitment_example = run-commitment size_of calls

term-IsInjective : IsInjective Term
term-IsInjective = record { width = λ v w. refl; vals_inj = λ v w h. cc h }

abbrev low_proof : TrieProof
low_proof = record { steps = (0, leaf high (num 5)) ∷ []; terminal = some (low, leaf low (num 3)) }

low_proof-made : (prove two low).1 ≡ low_proof
unfolding prove flush insert touched empty trie_prove trie_set key_bit first_diff_bit bytes32_ord
    bbg.Prelude.Ord.cmp_list leaf Map.insert Map.get
low_proof-made = refl

accepted : verify low_proof (commitment two).1 low (some (leaf low (num 3))) ≡ some true
unfolding Map.get Map.insert insert empty bytes32_ord bbg.Prelude.Ord.cmp_list
accepted =
    ap (λ p. verify p (commitment two).1 low (some (leaf low (num 3)))) (sym low_proof-made)
    ∙ prove-commitment two low two-IsKeyed

commitment_sound_example : Map.get low two.map ≡ some (num 3)
commitment_sound_example =
    commitment_sound toy-IsCollisionFree term-IsInjective two low_proof low (num 3) two-IsKeyed
      (omega arith, tt) accepted
