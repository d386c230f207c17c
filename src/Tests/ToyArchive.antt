-- ===== src/Tests/ToyArchive.antt =====
-- An archive that computes: a word is a number and seven zeros, and a list or a string has its length
-- before it.
use Prim.Native.Char.{Char, char, code, nul, IsScalar, IsLt}
use Prim.Native.Nat.{compare, Ordering}
use dhtdynamic_audit_strateg.Base.{
  ℕ, zero, suc, ◌<◌, ◌≡◌, refl, ap, Option, none, some, List, [], ◌∷◌, ◌++◌, String, arith, ltb,
  ◌==◌, ◌∙◌, if◌then◌else◌, length, word_mod,
}
use dhtdynamic_audit_strateg.CoreLib.Archive.{Archive, Reads, AllBelow}
use dhtdynamic_audit_strateg.Messages.{MaintenanceOpType, update, insert, delete, unsupported}
use dhtdynamic_audit_strateg.Common.{codes}
use dhtdynamic_audit_strateg.Tests.Toy.{toy_sm9}
use dhtdynamic_audit_strateg.Tests.ToyInput.{toy_op}

unfoldable pub head_of : List ℕ → Option (ℕ × List ℕ)
head_of [] = none
head_of (b ∷ bs) = some (b, bs)

abbrev pub checked : ℕ → List ℕ → Option (ℕ × List ℕ)
checked n bs = if ltb n word_mod then some (n, bs) else none

unfoldable pub word_of : List ℕ → Option (ℕ × List ℕ)
word_of (n ∷ _ ∷ _ ∷ _ ∷ _ ∷ _ ∷ _ ∷ _ ∷ bs) = checked n bs
word_of _ = none

abbrev pub word : ℕ → List ℕ
word n = n ∷ 0 ∷ 0 ∷ 0 ∷ 0 ∷ 0 ∷ 0 ∷ 0 ∷ []

word_below : (n m : ℕ) (bs rest : List ℕ) → checked n bs ≡ some (m, rest) → m < word_mod
word_below n m bs rest h = ground arith

pub word_of-bounds : (bytes rest : List ℕ) (n : ℕ) → word_of bytes ≡ some (n, rest) → n < word_mod
unfolding word_of
word_of-bounds (m ∷ _ ∷ _ ∷ _ ∷ _ ∷ _ ∷ _ ∷ _ ∷ bs) rest n h = word_below m n bs rest h
word_of-bounds _ rest n h = cc

pub word_of-word : (n : ℕ) → n < word_mod → Reads word_of (word n) n
unfolding word_of
word_of-word n h rest = ground arith

abbrev pub consed : {A : Type 0} → A → Option (List A × List ℕ) → Option (List A × List ℕ)
consed a none = none
consed a (some (more, bs)) = some (a ∷ more, bs)

unfoldable pub counted : ℕ → List ℕ → Option (List ℕ × List ℕ)
counted zero bs = some ([], bs)
counted (suc n) [] = none
counted (suc n) (b ∷ bs) = consed b (counted n bs)

abbrev pub then_counted : Option (ℕ × List ℕ) → Option (List ℕ × List ℕ)
then_counted none = none
then_counted (some (n, bs)) = counted n bs

pub counted-append : (ns rest : List ℕ) → counted (length ns) (ns ++ rest) ≡ some (ns, rest)
unfolding counted
counted-append [] rest = refl
counted-append (n ∷ ns) rest = ap (consed n) (counted-append ns rest)

pub list-Reads : (ns : List ℕ) → Reads (λ bs. then_counted (head_of bs)) (length ns ∷ ns) ns
unfolding head_of
list-Reads ns rest = counted-append ns rest

-- The two helpers of `IsScalar`, with the same clauses.
abbrev pub IsBelow : Ordering → Ordering → Type 0
IsBelow Ordering.lt p = IsLt p
IsBelow Ordering.eq p = ⊥
IsBelow Ordering.gt p = ⊥

abbrev pub IsCode : Ordering → Ordering → Ordering → Type 0
IsCode Ordering.lt o p = Unit
IsCode Ordering.eq o p = IsBelow o p
IsCode Ordering.gt o p = IsBelow o p

abbrev pub is_lt : (p : Ordering) → Option (IsLt p)
is_lt Ordering.lt = some tt
is_lt Ordering.eq = none
is_lt Ordering.gt = none

abbrev pub is_below : (o p : Ordering) → Option (IsBelow o p)
is_below Ordering.lt p = is_lt p
is_below Ordering.eq p = none
is_below Ordering.gt p = none

abbrev pub is_code : (o p q : Ordering) → Option (IsCode o p q)
is_code Ordering.lt p q = some tt
is_code Ordering.eq p q = is_below p q
is_code Ordering.gt p q = is_below p q

is_lt-some : (p : Ordering) (w : IsLt p) → is_lt p ≡ some w
is_lt-some Ordering.lt w = refl
is_lt-some Ordering.eq w = absurd w
is_lt-some Ordering.gt w = absurd w

is_below-some : (o p : Ordering) (w : IsBelow o p) → is_below o p ≡ some w
is_below-some Ordering.lt p w = is_lt-some p w
is_below-some Ordering.eq p w = absurd w
is_below-some Ordering.gt p w = absurd w

is_code-some : (o p q : Ordering) (w : IsCode o p q) → is_code o p q ≡ some w
is_code-some Ordering.lt p q w = refl
is_code-some Ordering.eq p q w = is_below-some p q w
is_code-some Ordering.gt p q w = is_below-some p q w

abbrev pub char_or_nul : (n : ℕ) → Option (IsScalar n) → Char
char_or_nul n none = nul
char_or_nul n (some w) = char n w

abbrev pub decode : ℕ → Char
decode n = char_or_nul n (is_code (compare n 55296) (compare 57343 n) (compare n 1114112))

pub decode-code : (c : Char) → decode (code c) ≡ c
decode-code (char n w) =
    ap (char_or_nul n) (is_code-some (compare n 55296) (compare 57343 n) (compare n 1114112) w)

unfoldable pub text : List ℕ → String
text [] = String.[]
text (n ∷ ns) = String.◌∷◌ (decode n) (text ns)

pub text-codes : (s : String) → text (codes s) ≡ s
unfolding text
text-codes String.[] = refl
text-codes (String.◌∷◌ c s) = rw (decode-code, text-codes s)

abbrev pub as_text : Option (List ℕ × List ℕ) → Option (String × List ℕ)
as_text none = none
as_text (some (ns, bs)) = some (text ns, bs)

abbrev pub toy_bytes : List ℕ → Option (List ℕ × List ℕ)
toy_bytes bs = then_counted (head_of bs)

pub string-Reads :
    (s : String) → Reads (λ bs. as_text (toy_bytes bs)) (length (codes s) ∷ codes s) s
string-Reads s rest =
    ap as_text (list-Reads (codes s) rest) ∙ ap (λ t. some (t, rest)) (text-codes s)

abbrev pub toy_op_number : MaintenanceOpType → ℕ
toy_op_number update = 0
toy_op_number insert = 1
toy_op_number delete = 2
toy_op_number (unsupported n) = suc (suc (suc n))

pub toy_op-number : (t : MaintenanceOpType) → toy_op (toy_op_number t) ≡ t
toy_op-number update = refl
toy_op-number insert = refl
toy_op-number delete = refl
toy_op-number (unsupported n) = refl

pub number-Reads : (n : ℕ) → Reads head_of (n ∷ []) n
unfolding head_of
number-Reads n rest = refl

-- A number as that many ones, before a two.
unfoldable pub digits : ℕ → List ℕ
digits zero = 2 ∷ []
digits (suc n) = 1 ∷ digits n

abbrev pub suc_of : Option ℕ → Option ℕ
suc_of none = none
suc_of (some n) = some (suc n)

unfoldable pub number_of : List ℕ → Option ℕ
number_of [] = none
number_of (b ∷ bs) = let rest = number_of bs in if b == 2 then some 0 else suc_of rest

pub digits-AllBelow : (n : ℕ) → AllBelow 256 (digits n)
unfolding digits
digits-AllBelow zero = omega arith
digits-AllBelow (suc n) = (omega arith, digits-AllBelow n)

pub number_of-digits : (n : ℕ) → number_of (digits n) ≡ some n
unfolding digits number_of
number_of-digits zero = refl
number_of-digits (suc n) = ap suc_of (number_of-digits n)

instance abbrev pub toy_archive : Archive
toy_archive = record {
  put_byte = λ n. n ∷ [];
  take_byte = head_of;
  put_word = word;
  take_word = word_of;
  put_bytes = λ ns. length ns ∷ ns;
  take_bytes = toy_bytes;
  put_words = λ ns. length ns ∷ ns;
  take_words = toy_bytes;
  put_string = λ s. length (codes s) ∷ codes s;
  take_string = λ bs. as_text (toy_bytes bs);
  put_scalar = λ n. n ∷ [];
  take_scalar = head_of;
  put_g1 = λ n. n ∷ [];
  take_g1 = head_of;
  put_g2 = λ n. n ∷ [];
  take_g2 = head_of;
  gt_serialize = digits;
  gt_deserialize = number_of;
  op_number = toy_op_number;
  op_of_number = toy_op;
  take-put_byte = λ n h. number-Reads n;
  take-put_word = word_of-word;
  take-put_bytes = λ ns h. list-Reads ns;
  take-put_words = λ ns h. list-Reads ns;
  take-put_string = string-Reads;
  take-put_scalar = number-Reads;
  take-put_g1 = number-Reads;
  take-put_g2 = number-Reads;
  take_word-bounds = word_of-bounds;
  length-put_word = λ n. refl;
  gt_serialize-bytes = digits-AllBelow;
  gt_deserialize-serialize = number_of-digits;
  op_of_number-op_number = toy_op-number;
}
