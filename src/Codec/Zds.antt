-- ===== src/Codec/Zds.antt =====
-- What the generated serialisation calls of zce's zds library, as parameters. A packer is given the
-- room that is left in the buffer and returns the bytes that it wrote; an unpacker is given the
-- bytes from its position on and returns the value and the bytes that it did not consume.
use libfgw.Prelude.{ℕ, ◌^◌, ◌<◌, ◌≡◌, refl, ◌≢◌, arith, Bool, true, false, List, [], ◌∷◌, ◌++◌, All}
use libfgw.Codes.{ℤ, Result, ok}
use libfgw.Link.Channel.{FgwEndpoint}
use libfgw.Config.{FgwChannelConfig, FgwConfig}

-- zds_pack_builtin, zds_unpack_builtin and is_empty_member at one of the built-in types.
pub record Builtin (A : Type 0) : Type 0 where
  pub is_empty : A → Bool
  pub pack : ℕ → A → Result (List ℕ)
  pub unpack : List ℕ → Result (A × List ℕ)

-- A double is its bit pattern. The arrays pack their elements with a `has_prefix` of zce's choice. The Bool of the struct header is `has_prefix`, the number the bits of
-- the members that are there.
pub record Zds : Type 1 where
  pub byte_builtin : Builtin ℕ
  pub uint16_builtin : Builtin ℕ
  pub uint32_builtin : Builtin ℕ
  pub uint64_builtin : Builtin ℕ
  pub int32_builtin : Builtin ℤ
  pub double_builtin : Builtin ℕ
  pub astring_builtin : Builtin (List ℕ)
  pub pack_struct_header : ℕ → ℕ → Bool → Result (List ℕ)
  pub unpack_struct_header : Bool → List ℕ → Result (ℕ × List ℕ)
  pub unpack_skip : List ℕ → Result (List ℕ)
  pub pack_array : {A : Type 0} → (Bool → ℕ → A → Result (List ℕ)) → ℕ → List A → Result (List ℕ)
  pub unpack_array :
      {A : Type 0} → (Bool → List ℕ → Result (A × List ℕ)) → List ℕ → Result (List A × List ℕ)
  pub is_empty_endpoint : FgwEndpoint → Bool
  pub is_empty_channel_config : FgwChannelConfig → Bool
  pub is_empty_config : FgwConfig → Bool

-- FgwEndpoint{}, FgwChannelConfig{} and FgwConfig{}, by the members' initial values.
abbrev pub empty_endpoint : FgwEndpoint
empty_endpoint = record { host = []; port = 0 }

abbrev pub empty_channel_config : FgwChannelConfig
empty_channel_config = record { channel_id = 0; kind = 0; remote = empty_endpoint; priority = 100 }

abbrev pub empty_config : FgwConfig
empty_config = record {
  role = 0;
  ingress_id = 0;
  inport_listen_port = 1080;
  outport_listen_host = [];
  outport_listen_port = 0;
  channels = [];
  segment_size = 1200;
  recv_window = 1024;
  heartbeat_interval = 5;
  link_timeout = 15;
  reconnect_max = 60;
  multipath_mode = 2;
  enable_crc = 1;
  route_outport_id = 0;
  config_version = 0;
}

-- A member of a struct: the values of its type, its value `{}`, and the calls made for it.
pub record Member (A : Type 0) : Type 1 where
  pub Holds : A → Type 0
  pub empty : A
  pub is_empty : A → Bool
  pub pack : ℕ → A → Result (List ℕ)
  pub unpack : List ℕ → Result (A × List ℕ)

abbrev builtin : {A : Type 0} → (A → Type 0) → A → Builtin A → Member A
builtin Holds empty b = record {
  Holds = Holds;
  empty = empty;
  is_empty = b.is_empty;
  pack = b.pack;
  unpack = b.unpack;
}

abbrev pub Below : ℕ → ℕ → Type 0
Below bits x = x < 2 ^ bits

-- The values that a double's `==` with 0.0 tells from 0.0, and 0.0: all but -0.0.
abbrev pub IsNotNegativeZero : ℕ → Type 0
IsNotNegativeZero x = x ≢ 2 ^ 63

abbrev pub byte : Zds → Member ℕ
byte z = builtin (Below 8) 0 z.byte_builtin

abbrev pub uint16 : Zds → Member ℕ
uint16 z = builtin (Below 16) 0 z.uint16_builtin

abbrev pub uint32 : Zds → Member ℕ
uint32 z = builtin (Below 32) 0 z.uint32_builtin

abbrev pub uint64 : Zds → Member ℕ
uint64 z = builtin (Below 64) 0 z.uint64_builtin

abbrev pub double : Zds → Member ℕ
double z = builtin IsNotNegativeZero 0 z.double_builtin

abbrev pub astring : Zds → Member (List ℕ)
astring z = builtin (All (Below 8)) [] z.astring_builtin

-- An int32 is `pos n` or `negsuc n` with n below 2 ^ 31.
abbrev pub IsInt32 : ℤ → Type 0
IsInt32 (ℤ.pos n) = n < 2 ^ 31
IsInt32 (ℤ.negsuc n) = n < 2 ^ 31

abbrev pub int32 : Zds → Member ℤ
int32 z = builtin IsInt32 (ℤ.pos 0) z.int32_builtin

abbrev is_nil : {A : Type 0} → List A → Bool
is_nil [] = true
is_nil (x ∷ xs) = false

-- zds_pack_array and zds_unpack_array; std::vector's empty.
abbrev pub array :
    {A : Type 0}
    → Zds
    → (A → Type 0)
    → (Bool → ℕ → A → Result (List ℕ))
    → (Bool → List ℕ → Result (A × List ℕ))
    → Member (List A)
array z Holds pack unpack = record {
  Holds = All Holds;
  empty = [];
  is_empty = is_nil;
  pack = z.pack_array pack;
  unpack = z.unpack_array unpack;
}

-- What is packed is unpacked again, whatever follows it.
abbrev pub RoundTrips :
    {A : Type 0}
    → (A → Type 0)
    → (ℕ → A → Result (List ℕ))
    → (List ℕ → Result (A × List ℕ))
    → Type 0
RoundTrips {A} Holds pack unpack =
    (x : A)
    → Holds x
    → (size : ℕ) (bytes rest : List ℕ) → pack size x ≡ ok bytes
    → unpack (bytes ++ rest) ≡ ok (x, rest)

-- The law of one member: only `{}` is empty, and it round-trips.
pub record MemberLaws {A : Type 0} (m : Member A) : Type 0 where
  pub empty_only : (x : A) → m.Holds x → m.is_empty x ≡ true → x ≡ m.empty
  pub unpack_packed : RoundTrips m.Holds m.pack m.unpack

-- A packed member is skipped as a whole.
abbrev pub Skips : {A : Type 0} → Zds → Member A → Type 0
Skips {A} z m =
    (x : A)
    → m.Holds x
    → (size : ℕ) (bytes rest : List ℕ) → m.pack size x ≡ ok bytes
    → z.unpack_skip (bytes ++ rest) ≡ ok rest

-- What zce documents of these calls.
pub record ZdsLaws (z : Zds) : Type 1 where
  pub byte_laws : MemberLaws (byte z)
  pub uint16_laws : MemberLaws (uint16 z)
  pub uint32_laws : MemberLaws (uint32 z)
  pub uint64_laws : MemberLaws (uint64 z)
  pub int32_laws : MemberLaws (int32 z)
  pub double_laws : MemberLaws (double z)
  pub astring_laws : MemberLaws (astring z)
  pub uint32_skips : Skips z (uint32 z)
  pub header_laws :
      (prefix : ℕ) (has_prefix : Bool) (size : ℕ) (bytes rest : List ℕ)
      → prefix < 2 ^ 64
      → z.pack_struct_header size prefix has_prefix ≡ ok bytes
      → z.unpack_struct_header has_prefix (bytes ++ rest) ≡ ok (prefix, rest)
  pub endpoint_empty_only : (t : FgwEndpoint) → z.is_empty_endpoint t ≡ true → t ≡ empty_endpoint
  pub channel_config_empty_only :
      (t : FgwChannelConfig) → z.is_empty_channel_config t ≡ true → t ≡ empty_channel_config
  pub config_empty_only : (t : FgwConfig) → z.is_empty_config t ≡ true → t ≡ empty_config
  pub array_laws :
      {A : Type 0} (Holds : A → Type 0) (pack : Bool → ℕ → A → Result (List ℕ))
      (unpack : Bool → List ℕ → Result (A × List ℕ))
      → ((has_prefix : Bool) → RoundTrips Holds (pack has_prefix) (unpack has_prefix))
      → RoundTrips (All Holds) (z.pack_array pack) (z.unpack_array unpack)

nil_only :
    {A : Type 0} (Holds : A → Type 0) (xs : List A) → All Holds xs → is_nil xs ≡ true → xs ≡ []
nil_only Holds [] h e = refl
nil_only Holds (x ∷ xs) h e = ground arith

pub array-laws :
    {A : Type 0} {z : Zds}
    → ZdsLaws z
    → (Holds : A → Type 0) (pack : Bool → ℕ → A → Result (List ℕ))
      (unpack : Bool → List ℕ → Result (A × List ℕ))
    → ((has_prefix : Bool) → RoundTrips Holds (pack has_prefix) (unpack has_prefix))
    → MemberLaws (array z Holds pack unpack)
array-laws laws Holds pack unpack each = record {
  empty_only = nil_only Holds;
  unpack_packed = laws.array_laws Holds pack unpack each;
}
