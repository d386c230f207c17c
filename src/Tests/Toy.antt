-- ===== src/Tests/Toy.antt =====
-- Instances that compute: entries in a list, tags in a function, and numbers for the scalars and the
-- points, with the product for the pairing.
use mathlib.Core.List.Perm
use dhtdynamic_audit_strateg.Base.{
  ℕ, zero, suc, ◌+◌, ◌*◌, ◌≤◌, ◌<◌, ◌≡◌, refl, true, not, Option, none, some, List, [], ◌∷◌, arith,
  ltb, ◌==◌, if◌then◌else◌, replicate,
}
use dhtdynamic_audit_strateg.Metadata.{BlockMetadata}
use dhtdynamic_audit_strateg.CoreLib.Entries.{
  entry_at, Distinct, KeysBelow, keep, entry_at-keep, keep-Distinct, KeysBelow-of_none,
}
use dhtdynamic_audit_strateg.CoreLib.Collection.{Collections}
use dhtdynamic_audit_strateg.CoreLib.Crypto.{Sm9}
use dhtdynamic_audit_strateg.CoreLib.TagSet.{TagSets}
use dhtdynamic_audit_strateg.CoreLib.Serializer.{Serializer}
use dhtdynamic_audit_strateg.CoreLib.Random.{Randomness}
use dhtdynamic_audit_strateg.Messages.{Tag}
use dhtdynamic_audit_strateg.Proofs.Laws.{Bilinear}

abbrev pub Entries : Type 0
Entries = List (ℕ × BlockMetadata ℕ)

pub record EntryCollection : Type 0 where
  pub factory : ℕ → BlockMetadata ℕ
  pub entries : Entries
  pub distinct : Distinct entries

-- One more than the greatest index.
unfoldable pub bound : Entries → ℕ
bound [] = 0
bound ((i, m) ∷ es) = if ltb i (bound es) then bound es else suc i

bound-KeysBelow : (n : ℕ) (es : Entries) → KeysBelow n es → bound es ≤ n
unfolding bound
bound-KeysBelow n [] h = omega arith
bound-KeysBelow n ((i, m) ∷ es) h = ground (arith, bound-KeysBelow n es)

below_bound : (k : ℕ) (es : Entries) (m : BlockMetadata ℕ) → entry_at k es ≡ some m → k < bound es
unfolding bound entry_at
below_bound k [] m h = cc
below_bound k ((i, v) ∷ es) m h = ground (arith, below_bound k es m)

pub bound-dense :
    (es : Entries) (n : ℕ)
    → ((i : ℕ) → i < n → (m : BlockMetadata ℕ) × (entry_at i es ≡ some m))
    → ((i : ℕ) → n ≤ i → entry_at i es ≡ none)
    → bound es ≡ n
bound-dense es zero here gone =
    omega (arith, bound-KeysBelow zero es (KeysBelow-of_none zero es gone))
bound-dense es (suc n) here gone =
    let last = here n (omega arith) in
    omega (
      arith,
      bound-KeysBelow (suc n) es (KeysBelow-of_none (suc n) es gone),
      below_bound n es last.0 last.1,
    )

pub put_new : (es : Entries) (i : ℕ) → entry_at i (keep (λ j. not (j == i)) es) ≡ none
put_new es i = ground (arith, entry_at-keep (λ j. not (j == i)) i es)

abbrev pub put_entry : EntryCollection → ℕ → BlockMetadata ℕ → EntryCollection
put_entry c i m = record {
  factory = c.factory;
  entries = (i, m) ∷ keep (λ j. not (j == i)) c.entries;
  distinct = (put_new c.entries i, keep-Distinct (λ j. not (j == i)) c.entries c.distinct);
}

pub entry_at-put_entry :
    (c : EntryCollection) (i j : ℕ) (m : BlockMetadata ℕ)
    → entry_at j (put_entry c i m).entries ≡ (if i == j then some m else entry_at j c.entries)
unfolding entry_at
entry_at-put_entry c i j m = ground (arith, entry_at-keep (λ k. not (k == i)) j c.entries)

pub entry_at-nil : (i : ℕ) → entry_at {V = BlockMetadata ℕ} i [] ≡ none
unfolding entry_at
entry_at-nil i = refl

instance abbrev pub toy_collections : Collections
toy_collections = record {
  Other = ℕ;
  bump_other = λ now o. o;
  Collection = EntryCollection;
  new = λ f. record { factory = f; entries = []; distinct = tt };
  create_init_metadata = λ c now. c.factory now;
  set_index = put_entry;
  get_by_index = λ c i. entry_at i c.entries;
  snapshot = λ c. c.entries;
  clear = λ c. record { factory = c.factory; entries = []; distinct = tt };
  total_size = λ c. bound c.entries;
  create-new = λ f now. refl;
  create-set = λ c i now m. refl;
  get-new = λ f i. entry_at-nil i;
  get-set = entry_at-put_entry;
  get-clear = λ c i. entry_at-nil i;
  entry_at-snapshot = λ c i. refl;
  snapshot-Distinct = λ c. c.distinct;
  total_size_dense = λ c n. bound-dense c.entries n;
}

abbrev pub total : List ℕ → ℕ
total [] = 0
total (x ∷ xs) = x + total xs

instance abbrev pub toy_sm9 : Sm9
toy_sm9 = record {
  Scalar = ℕ;
  G1 = ℕ;
  G2 = ℕ;
  Gt = ℕ;
  scalar_default = 0;
  g1_default = 0;
  g2_default = 0;
  gt_default = 0;
  scalar_zero = 0;
  scalar_of_bytes = total;
  is_zero = λ s. s == 0;
  scalar_add = λ s t. some (s + t);
  scalar_mul = λ s t. some (s * t);
  scalar_sum = λ s t. s + t;
  g1_generator = 1;
  g1_infinity = 0;
  g1_is_infinity = λ p. p == 0;
  g1_add = λ p q. p + q;
  g1_sub = λ p q. 0;
  g1_mul = λ p s. p * s;
  g1_eq = λ p q. p == q;
  g2_is_infinity = λ p. p == 0;
  g2_mul = λ p s. p * s;
  g2_from_scalar = λ s. s;
  gt_one = 0;
  pairing = λ p q. some (p * q);
  gt_pow = λ x s. some (x * s);
  gt_mul = λ x y. some (x + y);
  gt_eq = λ x y. x == y;
  hash_to_curve = λ bytes. suc (total bytes);
  hash_to_scalar = total;
  hash_challenge = total;
}

pub ==-refl : (x : ℕ) → (x == x) ≡ true
==-refl x = ground arith

abbrev pub toy_laws : Bilinear
toy_laws = record {
  e = λ p q. p * q;
  pow = λ x s. x * s;
  mul = λ x y. x + y;
  times = λ s t. s * t;
  pairing_some = λ p q h k. refl;
  pow_some = λ x s. refl;
  mul_some = λ x y. refl;
  times_some = λ s t. refl;
  gt_eq_refl = ==-refl;
  e_infinity = λ q. omega arith;
  e_add = λ p p' q. omega arith;
  e_mul_left = λ p q s. omega arith;
  e_mul_right = λ p q s. omega arith;
  add_assoc = λ p q r. omega arith;
  add_comm = λ p q. omega arith;
  add_infinity = λ p. omega arith;
  mul_zero = λ p. omega arith;
  mul_sum = λ p s t. omega arith;
  mul_add = λ p q s. omega arith;
  mul_times = λ p s t. omega arith;
  product_comm = λ x y. omega arith;
}

instance abbrev pub toy_tags : TagSets (Tag ℕ)
toy_tags = record {
  Tags = ℕ → Option (Tag ℕ);
  no_tags = λ i. none;
  set_tag = λ t i tag j. if i == j then some tag else t j;
  tag_at = λ t i. t i;
  tag_at-no_tags = λ i. refl;
  tag_at-set_tag = λ t i j tag. refl;
}

instance abbrev pub toy_serializer : Serializer
toy_serializer = record { serialize_metadata = λ m. m.version ∷ m.timestamp ∷ [] }

pub toy_bounds :
    (k n : ℕ) → 1 ≤ n → (1 ≤ (if ltb k n then suc k else 1)) × ((if ltb k n then suc k else 1) ≤ n)
toy_bounds k n h = ground arith

instance abbrev pub toy_randomness : Randomness
toy_randomness = record {
  random_bytes = λ k. suc k ∷ replicate 31 0;
  draw = λ seed k n. if ltb k n then suc k else 1;
  iteration = λ xs. xs;
  draw-bounds = λ seed. toy_bounds;
  iteration-perm = λ xs. Perm.refl xs;
}
