-- ===== src/Config/Bodies.antt =====
-- The bodies of merged configurations, `mergeBodyConfig` of src/core/ConfigMerger.ts.
use request.Base.{◌≡◌, Bool, true, false, ◌&&◌, ◌||◌, Option, none, some, arith, if◌then◌else◌}

-- A property: missing, or there with a value that may be `undefined`.
pub data Own (V : Type 0) : Type 0 where
  missing : Own V
  given : Option V → Own V

pub record BodyConfig (V : Type 0) : Type 0 where
  pub body : Own V
  pub json : Own V
  pub form : Own V
  pub form_data : Own V

module _ {V : Type 0} where
  abbrev pub value_of : Own V → Option V
  value_of missing = none
  value_of (given v) = v

  abbrev pub is_own : Own V → Bool
  is_own missing = false
  is_own (given v) = true

  abbrev pub is_defined : Option V → Bool
  is_defined none = false
  is_defined (some v) = true

  abbrev pub override : Own V → Own V → Own V
  override d missing = d
  override d (given v) = given v

  abbrev pub has_body_config : BodyConfig V → Bool
  has_body_config c = is_own c.body || is_own c.json || is_own c.form || is_own c.form_data

  abbrev pub has_body_value : BodyConfig V → Bool
  has_body_value c =
      is_defined (value_of c.body)
      || is_defined (value_of c.json)
      || is_defined (value_of c.form)
      || is_defined (value_of c.form_data)

  abbrev pub spread_body : BodyConfig V → BodyConfig V → BodyConfig V
  spread_body d c = record {
    body = override d.body c.body;
    json = override d.json c.json;
    form = override d.form c.form;
    form_data = override d.form_data c.form_data;
  }

  -- `mergeBodyConfig` sets all four.
  abbrev pub all_given : BodyConfig V → BodyConfig V
  all_given c = record {
    body = given (value_of c.body);
    json = given (value_of c.json);
    form = given (value_of c.form);
    form_data = given (value_of c.form_data);
  }

  unfoldable pub merge_body : BodyConfig V → BodyConfig V → BodyConfig V
  merge_body defaults config =
      let result = spread_body defaults config in
      if (has_body_config defaults || has_body_value result) && has_body_config config
      then all_given config
      else result

  abbrev pub SameValues : BodyConfig V → BodyConfig V → Type 0
  SameValues c d =
      (value_of c.body ≡ value_of d.body)
      × (value_of c.json ≡ value_of d.json)
      × (value_of c.form ≡ value_of d.form)
      × (value_of c.form_data ≡ value_of d.form_data)

  -- A request that mentions a body of any kind has none of the defaults' left; any other has all of them.
  pub merge_body-SameValues :
      (defaults config : BodyConfig V)
      → SameValues
          (merge_body defaults config)
          (if has_body_config config then config else defaults)
  unfolding merge_body
  merge_body-SameValues defaults config = (ground arith, ground arith, ground arith, ground arith)
