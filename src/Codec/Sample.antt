-- ===== src/Codec/Sample.antt =====
-- A small zds for which the laws hold.
use libfgw.Prelude.{
  ℕ, zero, suc, ◌-◌, ◌≡◌, refl, Bool, true, false, List, [], ◌∷◌, ◌++◌, append_assoc, ltb, ◌==◌,
  if◌then◌else◌, length, take, drop, take-append, drop-append, All, arith,
}
use libfgw.Codes.{ℤ, Result, ok, err, memory, bad_segment, ◌>>=◌}
use libfgw.Codec.Zds.{Builtin, Zds, ZdsLaws, RoundTrips}
use libfgw.Codec.RoundTrip.{bind_ok, ok_inj}

abbrev pack_number : ℕ → ℕ → Result (List ℕ)
pack_number size x = if size == 0 then err memory else ok (x ∷ [])

abbrev unpack_number : List ℕ → Result (ℕ × List ℕ)
unpack_number [] = err bad_segment
unpack_number (x ∷ rest) = ok (x, rest)

abbrev pack_text : ℕ → List ℕ → Result (List ℕ)
pack_text size cs = if ltb size (suc (length cs)) then err memory else ok (length cs ∷ cs)

abbrev unpack_text : List ℕ → Result (List ℕ × List ℕ)
unpack_text [] = err bad_segment
unpack_text (n ∷ rest) = ok (take n rest, drop n rest)

abbrev pack_int : ℕ → ℤ → Result (List ℕ)
pack_int size (ℤ.pos n) = if ltb size 2 then err memory else ok (0 ∷ n ∷ [])
pack_int size (ℤ.negsuc n) = if ltb size 2 then err memory else ok (1 ∷ n ∷ [])

abbrev unpack_int : List ℕ → Result (ℤ × List ℕ)
unpack_int (zero ∷ n ∷ rest) = ok (ℤ.pos n, rest)
unpack_int (suc s ∷ n ∷ rest) = ok (ℤ.negsuc n, rest)
unpack_int _ = err bad_segment

abbrev pack_items : {A : Type 0} → (Bool → ℕ → A → Result (List ℕ)) → ℕ → List A → Result (List ℕ)
pack_items pack size [] = ok []
pack_items pack size (x ∷ xs) = pack true size x >>= λ first.
    pack_items pack (size - length first) xs >>= λ others. ok (first ++ others)

abbrev unpack_items :
    {A : Type 0} → (Bool → List ℕ → Result (A × List ℕ)) → ℕ → List ℕ → Result (List A × List ℕ)
unpack_items unpack zero bytes = ok ([], bytes)
unpack_items unpack (suc n) bytes = unpack true bytes >>= λ (x, rest).
    unpack_items unpack n rest >>= λ (xs, rest'). ok (x ∷ xs, rest')

abbrev pack_list : {A : Type 0} → (Bool → ℕ → A → Result (List ℕ)) → ℕ → List A → Result (List ℕ)
pack_list pack size xs = pack_items pack (size - 1) xs >>= λ items. ok (length xs ∷ items)

abbrev unpack_list :
    {A : Type 0} → (Bool → List ℕ → Result (A × List ℕ)) → List ℕ → Result (List A × List ℕ)
unpack_list unpack [] = err bad_segment
unpack_list unpack (n ∷ rest) = unpack_items unpack n rest

abbrev number : Builtin ℕ
number = record { is_empty = λ x. x == 0; pack = pack_number; unpack = unpack_number }

abbrev text : Builtin (List ℕ)
text = record { is_empty = λ cs. length cs == 0; pack = pack_text; unpack = unpack_text }

abbrev is_zero : ℤ → Bool
is_zero (ℤ.pos n) = n == 0
is_zero (ℤ.negsuc n) = false

abbrev pub sample : Zds
sample = record {
  byte_builtin = number;
  uint16_builtin = number;
  uint32_builtin = number;
  uint64_builtin = number;
  int32_builtin = record { is_empty = is_zero; pack = pack_int; unpack = unpack_int };
  double_builtin = number;
  astring_builtin = text;
  pack_struct_header = λ size prefix has_prefix. pack_number size prefix;
  unpack_struct_header = λ has_prefix bytes. unpack_number bytes;
  unpack_skip = λ bytes. unpack_number bytes >>= λ (x, rest). ok rest;
  pack_array = pack_list;
  unpack_array = unpack_list;
  is_empty_endpoint = λ t. false;
  is_empty_channel_config = λ t. false;
  is_empty_config = λ t. false;
}

kept : (b : Bool) (xs bytes : List ℕ) → (if b then err memory else ok xs) ≡ ok bytes → xs ≡ bytes
kept true xs bytes h = ground arith
kept false xs bytes h = ok_inj xs bytes h

number_law :
    (x size : ℕ) (bytes rest : List ℕ)
    → pack_number size x ≡ ok bytes
    → unpack_number (bytes ++ rest) ≡ ok (x, rest)
number_law x size bytes rest h = rw (← kept (size == 0) (x ∷ []) bytes h)

text_law :
    (cs : List ℕ) (size : ℕ) (bytes rest : List ℕ)
    → pack_text size cs ≡ ok bytes
    → unpack_text (bytes ++ rest) ≡ ok (cs, rest)
text_law cs size bytes rest h = rw (
  ← kept (ltb size (suc (length cs))) (length cs ∷ cs) bytes h,
  take-append cs rest (length cs) refl,
  drop-append cs rest (length cs) refl,
)

int_law :
    (x : ℤ) (size : ℕ) (bytes rest : List ℕ)
    → pack_int size x ≡ ok bytes
    → unpack_int (bytes ++ rest) ≡ ok (x, rest)
int_law (ℤ.pos n) size bytes rest h = rw (← kept (ltb size 2) (0 ∷ n ∷ []) bytes h)
int_law (ℤ.negsuc n) size bytes rest h = rw (← kept (ltb size 2) (1 ∷ n ∷ []) bytes h)

items_law :
    {A : Type 0} (Holds : A → Type 0) (pack : Bool → ℕ → A → Result (List ℕ))
    (unpack : Bool → List ℕ → Result (A × List ℕ))
    → ((has_prefix : Bool) → RoundTrips Holds (pack has_prefix) (unpack has_prefix))
    → (xs : List A) → All Holds xs
    → (size : ℕ) (bytes rest : List ℕ) → pack_items pack size xs ≡ ok bytes
    → unpack_items unpack (length xs) (bytes ++ rest) ≡ ok (xs, rest)
items_law Holds pack unpack each [] h size bytes rest packed = rw (← ok_inj [] bytes packed)
items_law Holds pack unpack each (x ∷ xs) (hx, h) size bytes rest packed =
    let (first, p, packed') = bind_ok _ _ bytes packed in
    let (others, q, packed'') = bind_ok _ _ bytes packed' in
    rw (
      ← ok_inj _ _ packed'',
      append_assoc first others rest,
      each true x hx size first (others ++ rest) p,
      items_law Holds pack unpack each xs h (size - length first) others rest q,
    )

list_law :
    {A : Type 0} (Holds : A → Type 0) (pack : Bool → ℕ → A → Result (List ℕ))
    (unpack : Bool → List ℕ → Result (A × List ℕ))
    → ((has_prefix : Bool) → RoundTrips Holds (pack has_prefix) (unpack has_prefix))
    → RoundTrips (All Holds) (pack_list pack) (unpack_list unpack)
list_law Holds pack unpack each xs h size bytes rest packed =
    let (items, p, packed') =
      bind_ok (pack_items pack (size - 1) xs) (λ items. ok (length xs ∷ items)) bytes packed in
    rw (← ok_inj (length xs ∷ items) bytes packed')
      (items_law Holds pack unpack each xs h (size - 1) items rest p)

is_zero_only : (x : ℤ) → is_zero x ≡ true → x ≡ ℤ.pos 0
is_zero_only (ℤ.pos zero) e = refl
is_zero_only (ℤ.pos (suc n)) e = ground arith
is_zero_only (ℤ.negsuc n) e = ground arith

no_text_only : (cs : List ℕ) → (length cs == 0) ≡ true → cs ≡ []
no_text_only [] e = refl
no_text_only (c ∷ cs) e = ground arith

pub sample-ZdsLaws : ZdsLaws sample
sample-ZdsLaws = record {
  byte_laws = record { empty_only = λ x h e. ground arith; unpack_packed = λ x h. number_law x };
  uint16_laws = record { empty_only = λ x h e. ground arith; unpack_packed = λ x h. number_law x };
  uint32_laws = record { empty_only = λ x h e. ground arith; unpack_packed = λ x h. number_law x };
  uint64_laws = record { empty_only = λ x h e. ground arith; unpack_packed = λ x h. number_law x };
  int32_laws = record { empty_only = λ x h e. is_zero_only x e; unpack_packed = λ x h. int_law x };
  double_laws = record { empty_only = λ x h e. ground arith; unpack_packed = λ x h. number_law x };
  astring_laws = record {
    empty_only = λ x h e. no_text_only x e;
    unpack_packed = λ x h. text_law x;
  };
  uint32_skips = λ x h size bytes rest packed. rw (number_law x size bytes rest packed);
  header_laws =
      λ prefix has_prefix size bytes rest small packed. number_law prefix size bytes rest packed;
  endpoint_empty_only = λ t e. ground arith;
  channel_config_empty_only = λ t e. ground arith;
  config_empty_only = λ t e. ground arith;
  array_laws = list_law;
}
