-- ===== src/Master/Requests.antt =====
-- What an outstation makes of the request of an integrity poll.
use dnp3_rust_lib.Prelude.{
  ℕ, ◌<◌, ◌≡◌, refl, sym, ap, ◌∙◌, Bool, true, false, bit_and, List, [], ◌∷◌, ◌++◌, append-nil,
  if◌then◌else◌, arith, inl, inr,
}
use dnp3_rust_lib.Prelude.Masks.{and_0f}
use dnp3_rust_lib.Core.Error
use dnp3_rust_lib.Core.Error.{Result-cases}
use dnp3_rust_lib.Core.Address.{Address}
use dnp3_rust_lib.Link.ControlField.{primary_control, direction_eq, outstation_to_master}
use dnp3_rust_lib.Transport.Segment.{TransportSegment}
use dnp3_rust_lib.App.AppControl
use dnp3_rust_lib.App.FunctionCode
use dnp3_rust_lib.App.AppObject.{
  AppObject, binary_inputs, binary_outputs, analog_inputs, analog_outputs, counters,
}
use dnp3_rust_lib.App.ApplicationFragment
use dnp3_rust_lib.App.ApplicationFragment.{
  ApplicationFragment, simulator_class_scan, integrity_poll_request,
}
use dnp3_rust_lib.App.ApplicationFragment.RoundTrip as FragmentRoundTrip
use dnp3_rust_lib.Outstation.{
  Database, OutstationSession, unless_empty, integrity_objects, handle_application, handle_request,
  encode_response,
}
use dnp3_rust_lib.Master.{MasterConfig, LinkStyle, standard, tool, poll_request}
use dnp3_rust_lib.Master.Sends.{request_of, style_direction}

abbrev pub some_of {ℓ} : {A : Type ℓ} → List A → Bool
some_of [] = false
some_of (x ∷ xs) = true

-- An object that carries some point.
abbrev pub has_points : AppObject → Bool
has_points (binary_inputs points) = some_of points
has_points (binary_outputs points) = some_of points
has_points (analog_inputs points) = some_of points
has_points (analog_outputs points) = some_of points
has_points (counters points) = some_of points
has_points _ = false

abbrev pub with_points : List AppObject → List AppObject
with_points [] = []
with_points (object ∷ rest) =
    if has_points object then object ∷ with_points rest else with_points rest

-- The response to a poll, by its parts: the five lists of the database, in this order, but for the
-- empty ones, under the poll's sequence number.
abbrev pub snapshot : Database → ℕ → ApplicationFragment
snapshot db sequence = record {
  control = record { fir = true; fin = true; con = false; uns = false; sequence = sequence };
  function = FunctionCode.response;
  iin = 0;
  objects = with_points (
      binary_inputs db.binary_inputs
      ∷ binary_outputs db.binary_outputs
      ∷ analog_inputs db.analog_inputs
      ∷ analog_outputs db.analog_outputs
      ∷ counters db.counters
      ∷ []);
}

-- Pushing an object unless its list is empty keeps it when it carries points.
unless_empty-with_points {ℓ} :
    {A : Type ℓ} (object : List A → AppObject) (points : List A) (rest : List AppObject)
    {tail : List AppObject}
    → has_points (object points) ≡ some_of points
    → tail ≡ with_points rest
    → unless_empty object points ++ tail ≡ with_points (object points ∷ rest)
unless_empty-with_points object [] rest h e = e ∙ rw (h, with_points)
unless_empty-with_points object (x ∷ xs) rest h e =
    ap (λ (t : List AppObject). object (x ∷ xs) ∷ t) e ∙ rw (h, with_points)

integrity_objects-snapshot :
    (db : Database) (sequence : ℕ) → integrity_objects db ≡ (snapshot db sequence).objects
unfolding integrity_objects
integrity_objects-snapshot db sequence =
    let c = counters db.counters ∷ [] in
    let ao = analog_outputs db.analog_outputs ∷ c in
    let ai = analog_inputs db.analog_inputs ∷ ao in
    let bo = binary_outputs db.binary_outputs ∷ ai in
    unless_empty-with_points binary_inputs db.binary_inputs bo refl (
      unless_empty-with_points binary_outputs db.binary_outputs ai refl (
        unless_empty-with_points analog_inputs db.analog_inputs ao refl (
          unless_empty-with_points analog_outputs db.analog_outputs c refl (
            sym (append-nil (unless_empty counters db.counters))
            ∙ unless_empty-with_points counters db.counters [] refl refl))))

pub poll_request-IsValid :
    (style : LinkStyle) (sequence : ℕ)
    → sequence < 16
    → FragmentRoundTrip.IsValid (poll_request style sequence)
unfolding poll_request ApplicationFragment.simulator_class_scan
    ApplicationFragment.integrity_poll_request ApplicationFragment.new AppControl.single
    AppControl.new ApplicationFragment.includes_iin
poll_request-IsValid tool sequence h = (
  omega (arith, and_0f sequence (omega arith)),
  refl,
  (tt, ((λ e. cc), ((λ e. cc), ((λ e. cc), tt)))),
)
poll_request-IsValid standard sequence h =
    (omega (arith, and_0f sequence (omega arith)), refl, (tt, tt))

masked_twice : (n : ℕ) → n < 16 → bit_and n 0x0f ≡ n
masked_twice n h = and_0f n (omega arith) ∙ omega arith

pub handle_application-poll :
    (db : Database) (style : LinkStyle) (sequence : ℕ)
    → sequence < 16
    → handle_application db (poll_request style sequence) ≡ Error.ok (snapshot db sequence)
unfolding handle_application poll_request ApplicationFragment.simulator_class_scan
    ApplicationFragment.integrity_poll_request ApplicationFragment.new AppControl.single
    AppControl.new
handle_application-poll db tool sequence h =
    rw (masked_twice sequence h, masked_twice sequence h, integrity_objects-snapshot db sequence)
handle_application-poll db standard sequence h =
    rw (masked_twice sequence h, masked_twice sequence h, integrity_objects-snapshot db sequence)

module _ (db : Database) (s : OutstationSession) (config : MasterConfig)
    (segment : TransportSegment) where
  pub handle_request-ok :
      (bytes : List ℕ) {request response : ApplicationFragment}
      → ApplicationFragment.decode bytes ≡ Error.ok request
      → handle_application db request ≡ Error.ok response
      → handle_request s db (request_of config segment) bytes
        ≡ encode_response s config.master response
            (direction_eq (style_direction config.link_style) outstation_to_master)
  unfolding handle_request primary_control
  handle_request-ok bytes decoded handled = rw (decoded, handled, handle_request)

pub encode_response-outstation :
    (s : OutstationSession) (destination : Address) (response : ApplicationFragment)
    (tool_style : Bool)
    → (encode_response s destination response tool_style).1.outstation ≡ s.outstation
unfolding encode_response
encode_response-outstation s destination response tool_style =
    elim (Result-cases (ApplicationFragment.encode response)) [
      | inl (bytes, e) ↦ rw (e, encode_response)
      | inr (inl (x, e)) ↦ rw (e, encode_response)
      | inr (inr e) ↦ rw (e, encode_response)
    ]
