-- ===== src/Codes.antt =====
-- src/zfgw.h: the module's constants, error codes and enumerations, and results that carry a code.
use libfgw.Prelude.{ℕ, zero, suc, Bool, ◌==◌}

-- An int; `negsuc n` is -(n + 1).
pub data ℤ : Type 0 where
  pos : ℕ → ℤ
  negsuc : ℕ → ℤ

-- ZFGW_ERRCODE, the codes that this code returns, and `zce`: a code that a call of zce returned.
pub data Errcode : Type 0 where
  memory busy not_running invalid_config invalid_role listen_fail no_channel channel_fail : Errcode
  bad_segment path_file_write path_file_read channel_exists channel_not_found : Errcode
  zce : ℕ → Errcode

-- An int that is a value, or negative and an error code.
pub data Result {ℓ} (A : Type ℓ) : Type ℓ where
  ok : A → Result A
  err : Errcode → Result A

infixl 5 ◌>>=◌
abbrev pub ◌>>=◌ {ℓ κ} : {A : Type ℓ} {B : Type κ} → Result A → (A → Result B) → Result B
ok a >>= f = f a
err e >>= f = err e

pub result_both {ℓ κ μ} :
    {A : Type ℓ} {C : Type κ} (P : A → Type μ) (o : Result C) (g : Errcode → A) (f : C → A)
    → ((e : Errcode) → P (g e))
    → ((c : C) → P (f c))
    → P (elim o [ err e ↦ g e | ok c ↦ f c ])
result_both P (err e) g f pg pf = pg e
result_both P (ok c) g f pg pf = pf c

-- kFgwWireIngressUseLocal
abbrev pub wire_ingress_use_local : ℕ
wire_ingress_use_local = 0xFFFFFFFF

-- kFgwProtoVersion
abbrev pub proto_version : ℕ
proto_version = 2

-- kFgwConfigVersion
abbrev pub config_version : ℕ
config_version = 0xF6C00003

unfoldable pub config_version_ok : ℕ → Bool
config_version_ok v = v == config_version

pub data Role : Type 0 where
  inport outport transit unknown : Role

-- FgwConfig.role is a byte.
pub role_of : ℕ → Role
role_of zero = Role.inport
role_of (suc zero) = Role.outport
role_of (suc (suc zero)) = Role.transit
role_of (suc (suc (suc n))) = Role.unknown
