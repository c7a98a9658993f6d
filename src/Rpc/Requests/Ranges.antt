-- ===== src/Rpc/Requests/Ranges.antt =====
-- What `validateCreateRequest` (pkg/rpc/encoder.go) lets through.
use iotencoder.Common.{
  ◌≡◌, refl, ℤ, pos, negsuc, is_empty, true, false, Option, none, some, ◌⊎◌, inl, inr, arith,
  Bool-cases,
}
use iotencoder.Common.Float.{Float64, IsIeee}
use iotencoder.Rpc.Requests.{
  Location, CreateRequest, outside_range, validate_location, validate_create_request,
}

module _ {F : Type 0} ⦃f : Float64 F⦄ where
  -- NaN, or a number of the range that is not zero.
  abbrev pub Within : ℤ → ℤ → F → Type 0
  Within low high x =
      (f.eq x x ≡ false)
      ⊎ ((f.le (f.from_int low) x ≡ true)
          × (f.le x (f.from_int high) ≡ true)
          × (f.eq x (f.from_int (pos 0)) ≡ false))

  pub record Valid (req : CreateRequest F) : Type 0 where
    pub location : Location F
    pub has_token : is_empty req.device_token ≡ false
    pub has_label : is_empty req.device_label ≡ false
    pub has_community : is_empty req.community_id ≡ false
    pub has_key : is_empty req.recipient_public_key ≡ false
    pub located : req.location ≡ some location
    pub longitude_within : Within (negsuc 179) (pos 180) location.longitude
    pub latitude_within : Within (negsuc 89) (pos 90) location.latitude

  module _ (laws : IsIeee F) where
    open laws use {whole_number, lt-eq-not-le, lt_nan, eq_nan}

    inside-Within :
        (low high : ℤ) (x : F)
        → f.eq x (f.from_int (pos 0)) ≡ false
        → outside_range x low high ≡ false
        → Within low high x
    inside-Within low high x z o = elim (Bool-cases (f.eq x x)) [
      | inl number ↦ ground (
        arith,
        lt-eq-not-le x (f.from_int low) number (whole_number low),
        lt-eq-not-le (f.from_int high) x (whole_number high) number,
      )
      | inr nan ↦ inl nan
    ]

    location-Within :
        (req : CreateRequest F) (o : Option (Location F))
        → req.location ≡ o
        → validate_location o ≡ none
        → (l : Location F) × (req.location ≡ some l)
          × Within (negsuc 179) (pos 180) l.longitude
          × Within (negsuc 89) (pos 90) l.latitude
    unfolding validate_location
    location-Within req none e h = ground arith
    location-Within req (some l) e h = (
      l,
      e,
      inside-Within (negsuc 179) (pos 180) l.longitude (ground arith) (ground arith),
      inside-Within (negsuc 89) (pos 90) l.latitude (ground arith) (ground arith),
    )

    -- A request that passes `validate_create_request` has a token, a label, a community, a key and a
    -- location, and each coordinate is NaN or a number that is not zero and is in its range.
    pub validate_create_request-Valid :
        (req : CreateRequest F) → validate_create_request req ≡ none → Valid req
    unfolding validate_create_request
    validate_create_request-Valid req h =
        let (l, e, lon, lat) = location-Within req req.location refl (ground arith) in
        record {
          location = l;
          has_token = ground arith;
          has_label = ground arith;
          has_community = ground arith;
          has_key = ground arith;
          located = e;
          longitude_within = lon;
          latitude_within = lat;
        }

    -- Coordinates that are NaN pass `validate_create_request`, if the other fields are not empty.
    pub validate_create_request_nan :
        (req : CreateRequest F) (l : Location F)
        → is_empty req.device_token ≡ false
        → is_empty req.device_label ≡ false
        → is_empty req.community_id ≡ false
        → is_empty req.recipient_public_key ≡ false
        → req.location ≡ some l
        → f.eq l.longitude l.longitude ≡ false
        → f.eq l.latitude l.latitude ≡ false
        → validate_create_request req ≡ none
    unfolding validate_create_request validate_location
    validate_create_request_nan req l t b c k e lon lat = ground (
      arith,
      eq_nan l.longitude (f.from_int (pos 0)) lon,
      eq_nan l.latitude (f.from_int (pos 0)) lat,
      lt_nan l.longitude (f.from_int (negsuc 179)) lon,
      lt_nan l.longitude (f.from_int (pos 180)) lon,
      lt_nan l.latitude (f.from_int (negsuc 89)) lat,
      lt_nan l.latitude (f.from_int (pos 90)) lat,
    )
