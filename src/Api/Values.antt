-- ===== src/Api/Values.antt =====
-- `any` of the wire types: a JSON value. `map[string]any` is a list of fields.
use scintx.Base.{ℕ, ◌+◌, ◌-◌, String, Bool}

mutual
  pub data Json : Type 0 where
    null : Json
    boolean : Bool → Json
    number text : String → Json
    array : Items → Json
    object : Fields → Json

  pub data Items : Type 0 where
    nil : Items
    cons : Json → Items → Items

  pub data Fields : Type 0 where
    end : Fields
    field : String → Json → Fields → Fields

abbrev pub Extensions : Type 0
Extensions = Fields

-- Nanoseconds; 0 is Go's zero time.
abbrev pub Time : Type 0
Time = ℕ

-- time.Duration, in nanoseconds: forwards, or back by a positive amount.
pub data Duration : Type 0 where
  ahead back : ℕ → Duration

-- t.Add(d); times lie far enough from the zero time for the difference to be exact.
unfoldable pub shift : Time → Duration → Time
shift t (Duration.ahead n) = t + n
shift t (Duration.back n) = t - n
