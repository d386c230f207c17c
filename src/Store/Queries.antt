-- ===== src/Store/Queries.antt =====
-- The store's queries against the abstract files, and an insertion that is undone.
use dhtdynamic_audit_strateg.Base.{
  ℕ, zero, suc, ◌+◌, ◌-◌, ◌≤◌, ◌<◌, ◌≡◌, refl, subst, sym, ap, ◌∙◌, fun_ext, true, ◌&&◌, Option,
  none, some, List, [], ◌∷◌, String, str_eq, eq_iff, arith, inl, inr, Bool-cases, leb,
  if◌then◌else◌, word_mod, word_pred, word_pred-eq, length, get_elem?, insert_idx, erase_idx,
  length-insert_idx, get_elem?-none,
}
use dhtdynamic_audit_strateg.Exec.{Exec, Outcome, done, threw, file_missing, block_null, or_throw}
use dhtdynamic_audit_strateg.CoreLib.Collection.{Collections}
use dhtdynamic_audit_strateg.Store.Dense.{total_size-length}
use dhtdynamic_audit_strateg.Store.Spec.{inserts, deletes, Files, put_file, AllShort, spec_op}
use dhtdynamic_audit_strateg.Store.Relation.{Refines, Agrees, FileHolds, out_of_range}
use dhtdynamic_audit_strateg.Store.Runs.{run_ops, spec_ops, run_ops-Refines}
use dhtdynamic_audit_strateg.Store.{
  Store, Metadata, is_some, has_file, get_block_count, get_block_metadata,
}

small_index : (n b : ℕ) → b ≤ n + 1 → n + 2 < word_mod → b < word_mod
small_index n b high room = omega arith

module _ ⦃core : Collections⦄ where
  allowed_place :
      (a : String → Option (List Metadata)) (id : String) (b : ℕ) (xs ys : List Metadata)
      → a id ≡ some xs
      → a id ≡ some ys
      → 1 ≤ b
      → b ≤ length xs + 1
      → (1 ≤ b) × (b ≤ length ys + 1)
  allowed_place a id b xs ys e f low high = let same : xs ≡ ys = cc in rw (← same) (low, high)

  longer_room :
      (xs : List Metadata) (b : ℕ) (m : Metadata)
      → b ≤ length xs + 1
      → length xs + 2 < word_mod
      → length (insert_idx xs (b - 1) m) + 1 < word_mod
  longer_room xs b m high room = omega (arith, length-insert_idx xs (b - 1) m (omega arith))

  -- The answers of the abstract file.
  abbrev pub count_of : Option (List Metadata) → Exec Store ℕ
  count_of none s = threw file_missing s
  count_of (some xs) s = done (length xs) s

  abbrev pub block_of : Option (List Metadata) → ℕ → Exec Store Metadata
  block_of none b s = threw file_missing s
  block_of (some xs) b s =
      or_throw block_null (if leb 1 b && leb b (length xs) then get_elem? xs (b - 1) else none) s

  answers :
      (s : Store) (id : String) (b : ℕ) (o : Option (List Metadata))
      → FileHolds s id o
      → ((xs : List Metadata) → o ≡ some xs → length xs + 1 < word_mod)
      → b < word_mod
      → (has_file s id ≡ is_some o)
        × (get_block_count id s ≡ count_of o s)
        × (get_block_metadata id b s ≡ block_of o b s)
  unfolding has_file get_block_count get_block_metadata
  answers s id b none missing short lt = (rw missing refl, rw missing refl, rw missing refl)
  answers s id b (some xs) (r, p, rep) short lt = (
    rw p refl,
    rw (p, total_size-length (s.cells r) xs rep) refl,
    elim (Bool-cases (leb 1 b && leb b (length xs))) [
      | inl inside ↦
          let index : word_pred b ≡ b - 1 = word_pred-eq b (ground arith) lt in
          rw (p, inside, index, rep (b - 1)) refl
      | inr outside ↦
          let gone =
            rep (word_pred b)
            ∙ get_elem?-none xs (word_pred b)
                (out_of_range b (length xs) outside lt (short xs refl)) in
          rw (p, outside, gone) refl
    ],
  )

  -- Where the store holds the abstract files, all of them shorter than a `std::size_t` counts, and
  -- the index is a `std::size_t`, a query changes nothing: whether there is a file, how many blocks
  -- it has, and the metadata of each are those of the abstract file; the latter two throw on a file
  -- that is missing, and the last throws on an index outside 1 to the number of blocks.
  pub query-Refines :
      (s : Store) (a : Files) (id : String) (b : ℕ)
      → Refines s a
      → AllShort a
      → b < word_mod
      → (has_file s id ≡ is_some (a id))
        × (get_block_count id s ≡ count_of (a id) s)
        × (get_block_metadata id b s ≡ block_of (a id) b s)
  query-Refines s a id b h short lt = answers s id b (a id) (h.holds id) (short id) lt

  erase-insert :
      (xs : List Metadata) (i : ℕ) (m : Metadata)
      → i ≤ length xs
      → erase_idx (insert_idx xs i m) i ≡ xs
  erase-insert xs zero m h = refl
  erase-insert [] (suc i) m h = absurd (omega arith)
  erase-insert (x ∷ xs) (suc i) m h = ap (◌∷◌ x) (erase-insert xs i m (omega arith))

  put_file-put_file :
      (a : Files) (id : String) (xs ys : List Metadata)
      → a id ≡ some xs
      → put_file (put_file a id (some ys)) id (some xs) ≡ a
  put_file-put_file a id xs ys e = fun_ext λ j. elim (Bool-cases (str_eq id j)) [
    | inl same ↦ let i : id ≡ j = (eq_iff id j).0 same in rw same (sym e ∙ ap a i)
    | inr differs ↦ rw differs refl
  ]

  Agrees-done :
      (o : Outcome Store (Unit {0})) (a : Files)
      → Agrees o (done tt a)
      → (t : Store) × (o ≡ done tt t) × Refines t a
  Agrees-done (done u t) a h = (t, refl, h)
  Agrees-done (threw e t) a h = elim h [ ]

  undone :
      (make : ℕ → Metadata) (clock : ℕ → ℕ) (reads : ℕ) (a : Files) (id : String) (b : ℕ)
      (xs : List Metadata)
      → a id ≡ some xs
      → 1 ≤ b
      → b ≤ length xs + 1
      → spec_ops make clock reads (inserts id b ∷ deletes id b ∷ []) a ≡ done tt a
  unfolding spec_ops
  undone make clock reads a id b xs e low high =
      let m = make (clock (reads + 0)) in
      let longer = length-insert_idx xs (b - 1) m (omega arith) in
      let self : str_eq id id ≡ true = (eq_iff id id).1 refl in
      let inside : (leb 1 b && leb b (length (insert_idx xs (b - 1) m))) ≡ true = ground arith in
      rw (e, self, inside, erase-insert xs (b - 1) m (omega arith))
        (ap (done tt) (put_file-put_file a id xs (insert_idx xs (b - 1) m) e))

  pub AllShort-put_file :
      (a : Files) (id : String) (ys : List Metadata)
      → AllShort a
      → length ys + 1 < word_mod
      → AllShort (put_file a id (some ys))
  AllShort-put_file a id ys short room j xs = elim (Bool-cases (str_eq id j)) [
    | inl same ↦ rw same (λ e. let eq : ys ≡ xs = cc in rw (← eq) room)
    | inr differs ↦ rw differs (short j xs)
  ]

  inserts-put_file :
      (make : ℕ → Metadata) (readings : ℕ → ℕ) (a a' : Files) (id : String) (b : ℕ)
      (xs : List Metadata)
      → a id ≡ some xs
      → spec_op make readings (inserts id b) a ≡ done tt a'
      → put_file a id (some (insert_idx xs (b - 1) (make (readings 0)))) ≡ a'
  inserts-put_file make readings a a' id b xs e h = let h' = rw e at h in cc

  -- A block that is inserted, from place 1 to one past the end, and then deleted leaves no trace:
  -- both calls return, and the store holds the abstract files that it held, for a file of fewer
  -- than 2⁶⁴ - 2 blocks among files shorter than a `std::size_t` counts.
  pub insert_delete :
      (s : Store) (a : Files) (id : String) (b : ℕ) (xs : List Metadata)
      → Refines s a
      → AllShort a
      → a id ≡ some xs
      → 1 ≤ b
      → b ≤ length xs + 1
      → length xs + 2 < word_mod
      → (t : Store) × (run_ops (inserts id b ∷ deletes id b ∷ []) s ≡ done tt t) × Refines t a
  insert_delete s a id b xs h short e low high room =
      let place =
        λ (ys : List Metadata) (f : a id ≡ some ys). allowed_place a id b xs ys e f low high in
      Agrees-done _ a (
        rw (undone s.metadata_factory s.clock s.reads a id b xs e low high) at (
          run_ops-Refines (inserts id b ∷ deletes id b ∷ []) s a h (
            short,
            place,
            λ a' p. (
              subst AllShort
                  (inserts-put_file s.metadata_factory (λ i. s.clock (s.reads + i)) a a' id b xs e
                    p)
                  (AllShort-put_file a id _ short (longer_room xs b _ high room)),
              small_index (length xs) b high room,
              λ a'' q. tt,
            ),
          )))
