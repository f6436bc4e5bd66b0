-- ===== src/Outstation/Application.antt =====
-- What the session answers to an application request is a response that can be sent.
use dnp3_rust_lib.Prelude.{
  ℕ, ◌<◌, ◌≡◌, Bool, true, false, List, [], ◌∷◌, All, All-append, arith, if◌then◌else◌,
}
use mathlib.Core.Path.{subst}
use dnp3_rust_lib.Prelude.Masks.{and_0f}
use dnp3_rust_lib.Core.Error.{Result, ok, err, unknown_value}
use dnp3_rust_lib.App.AppControl
use dnp3_rust_lib.App.AppControl.{AppControl}
use dnp3_rust_lib.App.FunctionCode
use dnp3_rust_lib.App.FunctionCode.{FunctionCode}
use dnp3_rust_lib.App.AppObject.{
  AppObject, binary_inputs, binary_outputs, analog_inputs, analog_outputs, counters,
}
use dnp3_rust_lib.App.AppObject.RoundTrip as ObjectRoundTrip
use dnp3_rust_lib.App.ApplicationFragment
use dnp3_rust_lib.App.ApplicationFragment.{ApplicationFragment}
use dnp3_rust_lib.App.ApplicationFragment.RoundTrip as FragmentRoundTrip
use dnp3_rust_lib.Outstation.{
  Database, unless_empty, any_static, integrity_objects, handle_application,
}

-- Each list of points makes a valid object.
abbrev pub Fits : Database → Type 0
Fits db =
    ObjectRoundTrip.IsValid (binary_inputs db.binary_inputs)
    × (ObjectRoundTrip.IsValid (binary_outputs db.binary_outputs)
        × (ObjectRoundTrip.IsValid (analog_inputs db.analog_inputs)
            × (ObjectRoundTrip.IsValid (analog_outputs db.analog_outputs)
                × ObjectRoundTrip.IsValid (counters db.counters))))

unless_empty-IsValid {ℓ} :
    {A : Type ℓ} (object : List A → AppObject) (values : List A)
    → ObjectRoundTrip.IsValid (object values)
    → All ObjectRoundTrip.IsValid (unless_empty object values)
unless_empty-IsValid object [] h = tt
unless_empty-IsValid object (x ∷ xs) h = (h, tt)

integrity_objects-IsValid :
    (db : Database) → Fits db → All ObjectRoundTrip.IsValid (integrity_objects db)
unfolding integrity_objects
integrity_objects-IsValid db (bi, (bo, (ai, (ao, c)))) =
    All-append ObjectRoundTrip.IsValid _ _ (unless_empty-IsValid binary_inputs db.binary_inputs bi)
      (All-append ObjectRoundTrip.IsValid _ _
        (unless_empty-IsValid binary_outputs db.binary_outputs bo)
        (All-append ObjectRoundTrip.IsValid _ _
          (unless_empty-IsValid analog_inputs db.analog_inputs ai)
          (All-append ObjectRoundTrip.IsValid _ _
            (unless_empty-IsValid analog_outputs db.analog_outputs ao)
            (unless_empty-IsValid counters db.counters c))))

response-IsValid :
    (sequence : ℕ) (objects : List AppObject)
    → sequence < 256
    → All ObjectRoundTrip.IsValid objects
    → FragmentRoundTrip.IsValid (
        ApplicationFragment.new
          (AppControl.new true true false false sequence)
          FunctionCode.response
          objects)
unfolding ApplicationFragment.new AppControl.new ApplicationFragment.includes_iin
response-IsValid sequence objects h ho = (omega (arith, and_0f sequence h), omega arith, ho)

static-IsValid :
    (asked : Bool) (db : Database)
    → Fits db
    → All ObjectRoundTrip.IsValid (if asked then integrity_objects db else [])
static-IsValid true db h = integrity_objects-IsValid db h
static-IsValid false db h = tt

ok-injective : {f g : ApplicationFragment} → ok f ≡ ok g → f ≡ g
ok-injective h = cc

-- When every list of a database makes a valid object, each response to a request whose sequence
-- number is a byte is valid as a fragment: it can be encoded, sent and read back.
pub handle_application-IsValid :
    (db : Database) (request : ApplicationFragment) {response : ApplicationFragment}
    → Fits db
    → request.control.sequence < 256
    → handle_application db request ≡ ok response
    → FragmentRoundTrip.IsValid response
unfolding handle_application AppControl.single
handle_application-IsValid db request {response} hdb hs h = go request.function h
  where
    plain : FragmentRoundTrip.IsValid (
        ApplicationFragment.new
          (AppControl.single request.control.sequence)
          FunctionCode.response
          [])
    plain = response-IsValid request.control.sequence [] hs tt

    go :
        (f : FunctionCode)
        → (elim f as (λ x. Result ApplicationFragment) [
          | FunctionCode.read ↦ ok (
              ApplicationFragment.new
                (AppControl.new true true false false request.control.sequence)
                FunctionCode.response
                (if any_static request.objects then integrity_objects db else []))
          | FunctionCode.record_current_time ↦ ok (
              ApplicationFragment.new
                (AppControl.single request.control.sequence)
                FunctionCode.response
                [])
          | FunctionCode.write ↦ ok (
              ApplicationFragment.new
                (AppControl.single request.control.sequence)
                FunctionCode.response
                [])
          | other ↦
              err (unknown_value "unsupported outstation function" (FunctionCode.encode other))
        ])
          ≡ ok response
        → FragmentRoundTrip.IsValid response
    go FunctionCode.read k = subst FragmentRoundTrip.IsValid (ok-injective k) (
        response-IsValid request.control.sequence _ hs
          (static-IsValid (any_static request.objects) db hdb))
    go FunctionCode.record_current_time k = subst FragmentRoundTrip.IsValid (ok-injective k) plain
    go FunctionCode.write k = subst FragmentRoundTrip.IsValid (ok-injective k) plain
    go _ k = cc
