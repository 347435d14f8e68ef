-- ===== src/Api/Meta.antt =====
-- The generated getters of gen/go/kestrai/v1alpha1/meta.pb.go: a nil message reads as an empty one.
use kestrai.Prelude.{ℕ, Option, none, some, List, []}
use kestrai.Text.{Str}
use kestrai.Store.{Labels}
use kestrai.Api.{Budget, Condition, ObjectMeta}

abbrev pub tenant_id_of_object_meta : Option ObjectMeta → Str
tenant_id_of_object_meta none = []
tenant_id_of_object_meta (some m) = m.tenant_id

abbrev pub uid_of_object_meta : Option ObjectMeta → Str
uid_of_object_meta none = []
uid_of_object_meta (some m) = m.uid

abbrev pub generation_of_object_meta : Option ObjectMeta → ℕ
generation_of_object_meta none = 0
generation_of_object_meta (some m) = m.generation

abbrev pub creation_timestamp_of_object_meta : Option ObjectMeta → Option ℕ
creation_timestamp_of_object_meta none = none
creation_timestamp_of_object_meta (some m) = m.creation_timestamp

abbrev pub deletion_timestamp_of_object_meta : Option ObjectMeta → Option ℕ
deletion_timestamp_of_object_meta none = none
deletion_timestamp_of_object_meta (some m) = m.deletion_timestamp

abbrev pub labels_of_object_meta : Option ObjectMeta → Labels
labels_of_object_meta none = []
labels_of_object_meta (some m) = m.labels

abbrev pub annotations_of_object_meta : Option ObjectMeta → Labels
annotations_of_object_meta none = []
annotations_of_object_meta (some m) = m.annotations

abbrev pub finalizers_of_object_meta : Option ObjectMeta → List Str
finalizers_of_object_meta none = []
finalizers_of_object_meta (some m) = m.finalizers

abbrev pub type_of_condition : Option Condition → Str
type_of_condition none = []
type_of_condition (some m) = m.type

abbrev pub status_of_condition : Option Condition → Str
status_of_condition none = []
status_of_condition (some m) = m.status

abbrev pub reason_of_condition : Option Condition → Str
reason_of_condition none = []
reason_of_condition (some m) = m.reason

abbrev pub message_of_condition : Option Condition → Str
message_of_condition none = []
message_of_condition (some m) = m.message

abbrev pub last_transition_time_of_condition : Option Condition → Option ℕ
last_transition_time_of_condition none = none
last_transition_time_of_condition (some m) = m.last_transition_time

abbrev pub observed_generation_of_condition : Option Condition → ℕ
observed_generation_of_condition none = 0
observed_generation_of_condition (some m) = m.observed_generation

abbrev pub usd_cap_of_budget : Option Budget → Str
usd_cap_of_budget none = []
usd_cap_of_budget (some m) = m.usd_cap

abbrev pub window_of_budget : Option Budget → Str
window_of_budget none = []
window_of_budget (some m) = m.window
