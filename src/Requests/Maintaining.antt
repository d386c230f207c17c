-- ===== src/Requests/Maintaining.antt =====
-- The requests that `createRequest` makes for the maintenance stage, and what the stage does with
-- them.
use dhtdynamic_audit_strateg.Base.{
  ℕ, ◌<◌, ◌≡◌, refl, Option, none, some, List, [], ◌∷◌, String, word_mod,
}
use dhtdynamic_audit_strateg.Fallible.{
  Fallible, returned, raised, Returns, Returns-mono, IsRaised, Returns-bind, Returns-or_raise,
  Returns-then, Returns-of_each,
}
use dhtdynamic_audit_strateg.CoreLib.Collection.{Collections}
use dhtdynamic_audit_strateg.CoreLib.Crypto.{Sm9}
use dhtdynamic_audit_strateg.CoreLib.TagSet.{TagSets}
use dhtdynamic_audit_strateg.CoreLib.Archive.{AllBelow}
use dhtdynamic_audit_strateg.CoreLib.Input.{Inputs, InputError, maintenance_op}
use dhtdynamic_audit_strateg.Messages.{Tag, MaintainExt, maintain_ext}
use dhtdynamic_audit_strateg.Store.{Store}
use dhtdynamic_audit_strateg.Maintain.{maintain, maintenance}
use dhtdynamic_audit_strateg.Requests.{
  create_request, create_maintain_request, read_numbers, read_block_indices, string_at,
}
use dhtdynamic_audit_strateg.Requests.Reading.{
  input, input_returned, test_member, file_id_key, op_type_key, block_indices_key,
}
use dhtdynamic_audit_strateg.Requests.Carried.{
  Context, AuditRequest, maintain_request, MaintainRequest, RequestError, file_id_missing,
  op_type_missing, indices_type,
}

module _ ⦃sm9 : Sm9⦄ ⦃tag_sets : TagSets (Tag sm9.G1)⦄ ⦃inputs : Inputs tag_sets.Tags⦄ where
  open inputs use {
    RawInput, Json, require_json, member, string, uint, uint64, array, as_uint64, as_uint64-uint64,
    as_uint64-bounds, op_of_number,
  }

  input-Returns :
      {A : Type 0} (P : A → Type 0) (m : Fallible InputError A) → Returns P m → Returns P (input m)
  input-Returns P (returned a) h = h
  input-Returns P (raised e) h = tt

  as_uint64-Returns : (j : Json) → Returns (λ n. n < word_mod) (input (as_uint64 j))
  as_uint64-Returns j =
      input-Returns (λ n. n < word_mod) (as_uint64 j)
        (Returns-of_each (λ n. n < word_mod) (as_uint64 j) (as_uint64-bounds j))

  read_numbers-AllBelow : (js : List Json) → Returns (AllBelow word_mod) (read_numbers js)
  unfolding read_numbers
  read_numbers-AllBelow [] = tt
  read_numbers-AllBelow (j ∷ js) =
      Returns-then (λ n. n < word_mod) (AllBelow word_mod) (input (as_uint64 j)) _
        (as_uint64-Returns j)
        λ n h.
          Returns-then (AllBelow word_mod) (AllBelow word_mod) (read_numbers js) _
            (read_numbers-AllBelow js) λ ns k. (h, k)

  read_block_indices-AllBelow :
      (value : Option Json) → Returns (AllBelow word_mod) (read_block_indices value)
  read_block_indices-AllBelow none = tt
  read_block_indices-AllBelow (some j) =
      Returns-or_raise (AllBelow word_mod) indices_type (array j) _ λ js e. read_numbers-AllBelow js

  -- A request for the file and the operation of the input, with the store of the context.
  pub record IsMaintainRequest (context : Context) (root : Json) (req : AuditRequest) : Type 0 where
    pub request : MaintainRequest
    pub is_maintain : req ≡ maintain_request request
    pub ext : MaintainExt
    pub with_ext : request.ext ≡ some (maintain_ext ext)
    pub same_op : request.op_type ≡ ext.op_type
    pub number : ℕ
    pub with_number : test_member (member op_type_key root) uint ≡ some number
    pub is_op : ext.op_type ≡ op_of_number number
    pub is_file : string_at file_id_key root ≡ some ext.file_id
    pub same_store : ext.state_store ≡ context.state_store
    pub with_indices :
        read_block_indices (member block_indices_key root) ≡ returned ext.block_indices
    pub words : AllBelow word_mod ext.block_indices

  abbrev pub MadeFrom : Context → RawInput → AuditRequest → Type 0
  MadeFrom context raw req =
      (root : Json) × (input (require_json maintenance_op raw) ≡ returned root)
      × IsMaintainRequest context root req

  create_maintain-MadeFrom :
      (context : Context) (raw : RawInput)
      → Returns (MadeFrom context raw) (create_maintain_request context raw)
  unfolding create_maintain_request
  create_maintain-MadeFrom context raw =
      let P : AuditRequest → Type 0 = MadeFrom context raw in
      Returns-bind P (input (require_json maintenance_op raw)) _ λ root j.
        Returns-or_raise P file_id_missing (string_at file_id_key root) _ λ id f.
          Returns-or_raise P op_type_missing (test_member (member op_type_key root) uint) _
            λ number o.
              Returns-bind P (read_block_indices (member block_indices_key root)) _ λ indices i. (
                root,
                j,
                record {
                  request = _;
                  is_maintain = refl;
                  ext = _;
                  with_ext = refl;
                  same_op = refl;
                  number = number;
                  with_number = o;
                  is_op = refl;
                  is_file = f;
                  same_store = refl;
                  with_indices = i;
                  words =
                      all_words indices (read_block_indices (member block_indices_key root)) i
                        (read_block_indices-AllBelow (member block_indices_key root));
                },
              )
    where
      all_words :
          (ns : List ℕ) (m : Fallible RequestError (List ℕ))
          → m ≡ returned ns
          → Returns (AllBelow word_mod) m
          → AllBelow word_mod ns
      all_words ns m e h = let h' = rw e at h in h'

  module _ ⦃core : Collections⦄ where
    -- A maintenance request that is made, of any context and input, is for the file, the operation
    -- and the indices of the input, which are all `std::size_t`, and passes the two guards of the
    -- stage on its extension.
    pub created_maintenance-MadeFrom :
        (context : Context) (raw : RawInput)
        → Returns
            (λ req.
              (made : MadeFrom context raw req) × ((s : Store)
                → maintenance made.2.request.ext s ≡ maintain made.2.ext s))
            (create_request maintenance_op context raw)
    unfolding create_request maintenance
    created_maintenance-MadeFrom context raw =
        Returns-mono (create_maintain_request context raw) (create_maintain-MadeFrom context raw)
          λ req made. (made, λ s. rw made.2.with_ext)

  -- The members of an array, and the numbers that they are.
  abbrev pub AreNumbers : List Json → List ℕ → Type 0
  AreNumbers [] [] = Unit
  AreNumbers (j ∷ js) (n ∷ ns) = (uint64 j ≡ some n) × AreNumbers js ns
  AreNumbers _ _ = ⊥

  read_numbers-AreNumbers :
      (js : List Json) (ns : List ℕ) → AreNumbers js ns → read_numbers js ≡ returned ns
  unfolding read_numbers
  read_numbers-AreNumbers [] [] h = refl
  read_numbers-AreNumbers [] (n ∷ ns) h = absurd h
  read_numbers-AreNumbers (j ∷ js) [] h = absurd h
  read_numbers-AreNumbers (j ∷ js) (n ∷ ns) h =
      simp (as_uint64-uint64 j n h.0, read_numbers-AreNumbers js ns h.1) refl

  -- A document with a file, an operation and an array of unsigned 64-bit numbers gives the request
  -- for just these, in the order of the array, with the store of the context.
  pub document-create_request :
      (context : Context) (raw : RawInput) (root file op indices : Json) (id : String) (number : ℕ)
      (js : List Json) (ns : List ℕ)
      → require_json maintenance_op raw ≡ returned root
      → member file_id_key root ≡ some file
      → string file ≡ some id
      → member op_type_key root ≡ some op
      → uint op ≡ some number
      → member block_indices_key root ≡ some indices
      → array indices ≡ some js
      → AreNumbers js ns
      → create_request maintenance_op context raw
        ≡ returned (
            maintain_request (record {
              op_type = op_of_number number;
              ext = some (
                  maintain_ext (record {
                    file_id = id;
                    op_type = op_of_number number;
                    block_indices = ns;
                    state_store = context.state_store;
                  }));
            }))
  unfolding create_request create_maintain_request
  document-create_request context raw root file op indices id number js ns j f s o u i a numbers =
      simp (j, f, s, o, u, i, a, read_numbers-AreNumbers js ns numbers) refl

  read_indices_wrong :
      (value : Json) (ns : List ℕ)
      → array value ≡ none
      → read_block_indices (some value) ≡ returned ns
      → ⊥
  read_indices_wrong value ns wrong read = let read' = rw wrong at read in cc

  -- Indices that are there and are no array are refused, whatever else the document holds: the
  -- request is never made for no indices instead.
  pub wrong_indices_refused :
      (context : Context) (raw : RawInput) (root value : Json)
      → require_json maintenance_op raw ≡ returned root
      → member block_indices_key root ≡ some value
      → array value ≡ none
      → IsRaised (create_request maintenance_op context raw)
  unfolding create_request
  wrong_indices_refused context raw root value j found wrong =
      Returns-mono (create_maintain_request context raw) (create_maintain-MadeFrom context raw)
        λ req made.
          let same : root ≡ made.0 =
            input_returned (require_json maintenance_op raw) root made.0 j made.1 in
          let read = rw (← same, found) at (made.2.with_indices) in
          read_indices_wrong value made.2.ext.block_indices wrong read
