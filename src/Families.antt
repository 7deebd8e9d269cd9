-- ===== src/Families.antt =====
-- The objects of a namespace page (main.go): `groupByObject` makes them of events, `groupByKind` puts
-- them in columns, and the children of this module join them to families.
pub mod Parents
pub mod Trees
pub mod Objects
use kubehealth.Prelude.{
  ℕ, suc, ◌+◌, ◌*◌, Bool, true, false, not, ◌&&◌, String, Option, none, some, List, [], ◌∷◌, ◌++◌,
  map, ltb, ◌==◌, bool_eq, str_eq, str_ltb, if◌then◌else◌,
}
use kubehealth.Prelude.Int.{pos, leb_ℤ}
use kubehealth.Prelude.Sort.{sort_by}
use kubehealth.Time.{Time, sub, after}
use kubehealth.Events.{EventSummary}
use kubehealth.Problems.{idle_after}

pub record ObjectEvents : Type 0 where
  pub kind : String
  pub object_name : String
  pub events : List EventSummary
  pub warning_count : ℕ
  pub normal_count : ℕ
  pub has_warning : Bool
  pub last_time : Time
  pub last_warning : Time
  pub idle : Bool

pub record KindGroup : Type 0 where
  pub kind : String
  pub objects : List ObjectEvents
  pub warning_count : ℕ
  pub normal_count : ℕ
  pub has_warning : Bool

abbrev pub new_object : EventSummary → ObjectEvents
new_object e = record {
  kind = e.kind;
  object_name = e.object_name;
  events = [];
  warning_count = 0;
  normal_count = 0;
  has_warning = false;
  last_time = 0;
  last_warning = 0;
  idle = false;
}

abbrev later : Time → Time → Time
later t u = if after t u then t else u

-- What an event adds to its object.
abbrev pub note_event : EventSummary → ObjectEvents → ObjectEvents
note_event e o =
    if str_eq e.type "Warning"
    then record o {
      events = o.events ++ e ∷ [];
      warning_count = suc o.warning_count;
      has_warning = true;
      last_warning = later e.last_time o.last_warning;
      last_time = later e.last_time o.last_time;
    }
    else record o {
      events = o.events ++ e ∷ [];
      normal_count = suc o.normal_count;
      last_time = later e.last_time o.last_time;
    }

abbrev pub is_about : EventSummary → ObjectEvents → Bool
is_about e o = str_eq o.kind e.kind && str_eq o.object_name e.object_name

-- The object of an event, or a new one at the end.
unfoldable pub add_to_object : EventSummary → List ObjectEvents → List ObjectEvents
add_to_object e [] = note_event e (new_object e) ∷ []
add_to_object e (o ∷ objects) =
    let rest = add_to_object e objects in
    if is_about e o then note_event e o ∷ objects else o ∷ rest

unfoldable pub add_all : List EventSummary → List ObjectEvents → List ObjectEvents
unfolding add_to_object
add_all [] objects = objects
add_all (e ∷ events) objects = add_all events (add_to_object e objects)

abbrev pub set_idle : Time → ObjectEvents → ObjectEvents
set_idle now o = record o {
  idle = o.has_warning && leb_ℤ (pos idle_after) (sub now o.last_warning);
}

abbrev pub object_before : ObjectEvents → ObjectEvents → Bool
object_before a b =
    if not (bool_eq a.has_warning b.has_warning)
    then a.has_warning
    else after a.last_time b.last_time

-- `groupByObject`
unfoldable pub group_by_object : Time → List EventSummary → List ObjectEvents
unfolding add_all sort_by
group_by_object now events = sort_by object_before (map (set_idle now) (add_all events []))

abbrev new_kind : String → KindGroup
new_kind kind = record {
  kind = kind;
  objects = [];
  warning_count = 0;
  normal_count = 0;
  has_warning = false;
}

abbrev note_object : ObjectEvents → KindGroup → KindGroup
note_object o g = record g {
  objects = g.objects ++ o ∷ [];
  warning_count = g.warning_count + o.warning_count;
  normal_count = g.normal_count + o.normal_count;
  has_warning = if o.has_warning then true else g.has_warning;
}

unfoldable pub add_to_kind : ObjectEvents → List KindGroup → List KindGroup
add_to_kind o [] = note_object o (new_kind o.kind) ∷ []
add_to_kind o (g ∷ groups) =
    let rest = add_to_kind o groups in
    if str_eq g.kind o.kind then note_object o g ∷ groups else g ∷ rest

unfoldable pub add_kinds : List ObjectEvents → List KindGroup → List KindGroup
unfolding add_to_kind
add_kinds [] groups = groups
add_kinds (o ∷ objects) groups = add_kinds objects (add_to_kind o groups)

abbrev pub column_before : KindGroup → KindGroup → Bool
column_before a b =
    if not (bool_eq a.has_warning b.has_warning) then a.has_warning else str_ltb a.kind b.kind

-- `groupByKind`
unfoldable pub group_by_kind : List ObjectEvents → List KindGroup
unfolding add_kinds sort_by
group_by_kind objects = sort_by column_before (add_kinds objects [])
