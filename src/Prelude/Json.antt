-- ===== src/Prelude/Json.antt =====
-- Python values that the program passes through `json`, and the dicts among them. A float is not
-- told apart from other values that the code never computes with: it is `other`, with a mark that
-- says whether `json.dumps` takes the value.
use safe_agent.Prelude.Tests.{if◌then◌else◌}
use Prim.Native.Nat.{ℕ, zero, suc}
use Prim.Native.String.{String}
use mathlib.Core.Bool.{Bool, true, false, not, ◌&&◌}
use mathlib.Core.Option.{Option, none, some}
use text.Mathlib.Text.{◌==◌}

mutual
  pub data Value : Type 0 where
    null : Value
    bool : Bool → Value
    int : ℕ → Value
    negative : ℕ → Value
    str : String → Value
    arr : Items → Value
    obj : Fields → Value
    other : (writable : Bool) → ℕ → Value

  pub data Items : Type 0 where
    nil : Items
    cons : Value → Items → Items

  pub data Fields : Type 0 where
    end : Fields
    field : String → Value → Fields → Fields

-- Whether `json.dumps` writes the value; it raises `TypeError` on any other.
unfoldable mutual
  pub serializable : Value → Bool
  serializable null = true
  serializable (bool b) = true
  serializable (int n) = true
  serializable (negative n) = true
  serializable (str s) = true
  serializable (arr xs) = serializable_items xs
  serializable (obj fs) = serializable_fields fs
  serializable (other writable n) = writable

  pub serializable_items : Items → Bool
  serializable_items nil = true
  serializable_items (cons v xs) = serializable v && serializable_items xs

  pub serializable_fields : Fields → Bool
  serializable_fields end = true
  serializable_fields (field k v fs) = serializable v && serializable_fields fs

-- `d.get(k)`
unfoldable pub get_field : String → Fields → Option Value
get_field k end = none
get_field k (field j v fs) = if j == k then some v else get_field k fs

-- `d[k] = v`
unfoldable pub set_field : String → Value → Fields → Fields
set_field k v end = field k v end
set_field k v (field j w fs) = if j == k then field j v fs else field j w (set_field k v fs)

-- `d.get(k, default)`
abbrev pub get_field_or : String → Value → Fields → Value
get_field_or k default fs = elim (get_field k fs) [ none ↦ default | some v ↦ v ]

-- `bool(v)`; of an `other` value the mark does not decide it, and the code never asks.
abbrev pub is_truthy : Value → Bool
is_truthy null = false
is_truthy (bool b) = b
is_truthy (int zero) = false
is_truthy (int (suc n)) = true
is_truthy (negative n) = true
is_truthy (str s) = not (s == "")
is_truthy (arr nil) = false
is_truthy (arr (cons v xs)) = true
is_truthy (obj end) = false
is_truthy (obj (field k v fs)) = true
is_truthy (other writable n) = true

-- `v or default`
abbrev pub value_or : Value → Value → Value
value_or v default = if is_truthy v then v else default
