-- ===== src/Overlay/Geo.antt =====
-- `GeoLocation` of core/src/overlay/topology/geo.rs.
use open_broadcast_network.Prelude.{
  String, Bool, true, false, Option, string_eq, [], ◌∷◌, if◌then◌else◌,
}
use open_broadcast_network.Prelude.Maps.{contains}
use open_broadcast_network.Overlay.Floats.{Floats}

pub data Region : Type 0 where
  north_america south_america europe asia africa oceania unknown : Region

abbrev pub same_region : Region → Region → Bool
same_region Region.north_america Region.north_america = true
same_region Region.south_america Region.south_america = true
same_region Region.europe Region.europe = true
same_region Region.asia Region.asia = true
same_region Region.africa Region.africa = true
same_region Region.oceania Region.oceania = true
same_region Region.unknown Region.unknown = true
same_region _ _ = false

module _ (F : Floats) where
  pub record GeoLocation : Type 0 where
    pub latitude : F.F64
    pub longitude : F.F64
    pub country : String
    pub region : Region
    pub city : Option String
    pub asn : Option String

  -- `x.sin().powi(2)`
  sin_squared : F.F64 → F.F64
  sin_squared x = F.mul64 (F.sin x) (F.sin x)

  -- The haversine formula, in kilometres.
  unfoldable pub distance_to : GeoLocation → GeoLocation → F.F64
  unfolding sin_squared
  distance_to here there =
      let lat1 = F.to_radians here.latitude in
      let lat2 = F.to_radians there.latitude in
      let dlat = F.sub64 lat2 lat1 in
      let dlon = F.sub64 (F.to_radians there.longitude) (F.to_radians here.longitude) in
      let two = F.literal64 2 1 in
      let a =
        F.add64 (sin_squared (F.div64 dlat two))
          (F.mul64 (F.mul64 (F.cos lat1) (F.cos lat2)) (sin_squared (F.div64 dlon two))) in
      let c = F.mul64 two (F.atan2 (F.sqrt a) (F.sqrt (F.sub64 (F.literal64 1 1) a))) in
      F.mul64 (F.literal64 6371 1) c

  unfoldable pub is_same_region : GeoLocation → GeoLocation → Bool
  is_same_region here there = same_region here.region there.region

unfoldable pub country_to_region : String → Region
country_to_region country =
    if contains country ("US" ∷ "CA" ∷ "MX" ∷ [])
    then Region.north_america
    else if contains country ("BR" ∷ "AR" ∷ "CL" ∷ "CO" ∷ "PE" ∷ "VE" ∷ [])
    then Region.south_america
    else if contains country
        ("GB" ∷ "DE" ∷ "FR" ∷ "IT" ∷ "ES" ∷ "NL" ∷ "SE" ∷ "NO" ∷ "FI" ∷ "PL" ∷ [])
    then Region.europe
    else if contains country ("CN" ∷ "JP" ∷ "KR" ∷ "IN" ∷ "SG" ∷ "TH" ∷ "MY" ∷ "ID" ∷ [])
    then Region.asia
    else if contains country ("ZA" ∷ "NG" ∷ "EG" ∷ "KE" ∷ "MA" ∷ [])
    then Region.africa
    else if contains country ("AU" ∷ "NZ" ∷ [])
    then Region.oceania
    else Region.unknown
