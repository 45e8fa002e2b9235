-- ===== src/Telemetry/Server.antt =====
-- internal/telemetry/server.go without the listener: the text of /metrics, and the paths that the
-- server answers. The text of a value, `%.4f` of package fmt, is an argument; the JSON of /healthz is
-- left as its record.
pub mod Exposition
use hosa.Prelude.{ℕ, List, [], ◌∷◌, ◌++◌, Bytes, codes, bytes_eq, if◌then◌else◌}
use hosa.Float.{Float}
use hosa.Telemetry.{Snapshot, HealthzResponse, handle_healthz}

-- The three lines that are written to the builder for one value.
unfoldable pub write_metric : Bytes → Bytes → Bytes → Bytes → Bytes → Bytes
write_metric b name typ help value =
    let b1 = b ++ codes "# HELP " ++ name ++ b' ' ∷ help ++ b'\n' ∷ [] in
    let b2 = b1 ++ codes "# TYPE " ++ name ++ b' ' ∷ typ ++ b'\n' ∷ [] in
    b2 ++ name ++ b' ' ∷ value ++ b'\n' ∷ []

-- The bytes of the letter D with a bar above it, which Go's source holds in UTF-8.
abbrev d_bar : Bytes
d_bar = b'D' ∷ 204 ∷ 132 ∷ []

abbrev pub help_stress : Bytes
help_stress = codes "Smoothed Mahalanobis distance (" ++ d_bar ++ codes "_M)"

abbrev pub help_dot : Bytes
help_dot =
    codes "Rate of change of " ++ d_bar ++ codes "_M per second (d" ++ d_bar ++ codes "_M/dt)"

abbrev pub help_level : Bytes
help_level = codes "Current alert level (0=homeostasis " ++ 226 ∷ 128 ∷ 166 ∷ codes " 4=survival)"

abbrev pub help_frag : Bytes
help_frag = codes "Normalized memory fragmentation entropy H_frag [0,1]"

module _ {F : Type 0} ⦃fl : Float F⦄ (text : F → Bytes) where
  -- The body of the response.
  unfoldable pub handle_metrics : Snapshot F → Bytes
  unfolding write_metric
  handle_metrics snap =
      let b1 =
        write_metric [] (codes "hosa_dm_stress") (codes "gauge") help_stress (text snap.dm) in
      let b2 = write_metric b1 (codes "hosa_dm_dot") (codes "gauge") help_dot (text snap.dm_dot) in
      let b3 =
        write_metric b2 (codes "hosa_alert_level") (codes "gauge") help_level
          (text (fl.of_ℕ snap.level)) in
      write_metric b3 (codes "hosa_h_frag_norm") (codes "gauge") help_frag (text snap.h_frag_norm)

-- A response; the text of the 404 is left out.
pub data Response (F : Type 0) : Type 0 where
  metrics_text : Bytes → Response F
  healthz_json : HealthzResponse F → Response F
  not_found : Response F

module _ {F : Type 0} ⦃fl : Float F⦄ (text : F → Bytes) where
  -- The handler that `NewServer` registers for the path of a request.
  unfoldable pub serve : Bytes → Snapshot F → ℕ → Response F
  unfolding handle_metrics handle_healthz
  serve path snap now =
      if bytes_eq path (codes "/metrics")
      then metrics_text (handle_metrics text snap)
      else if bytes_eq path (codes "/healthz")
      then healthz_json (handle_healthz snap now)
      else not_found
