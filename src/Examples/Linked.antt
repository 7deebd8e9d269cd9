-- ===== src/Examples/Linked.antt =====
-- The first rules of the linker (linked.go) on a Pod whose claim and Secret are missing.
use kubehealth.Prelude.{
  ◌≡◌, ◌≢◌, refl, true, false, String, none, some, List, [], ◌∷◌, All, Pairs, map, str_eq,
  if◌then◌else◌,
}
use kubehealth.Events.{EventSummary}
use kubehealth.Examples.Samples.{small_cluster, not_ready}
use kubehealth.Linked.{item_key}
use kubehealth.Linked.Follow.{
  found, not_found, Api, Matches, Pod, claim_volume, object_key, evidence_pods, texts, new_linker,
  followed, add_linked, pod_warnings,
}
use kubehealth.Linked.Follow.Words.{contains_word}
use kubehealth.Linked.Follow.Apart.{first_rules, first_rules_lem}
use kubehealth.Linked.Follow.Pulls.{
  follow_pull_secrets, pull_secrets_of, add_secrets, follow_secrets, pull_secret_item,
}
use kubehealth.Linked.Follow.Claims.{claims, claims_of, follow_volumes, follow_volume}
use kubehealth.Linked.Follow.Config.{config_refs, add_refs, note_texts, config_item}

abbrev web : Pod
web = record {
  name = "web";
  phase = "Pending";
  volumes = claim_volume "files" "web-files" ∷ claim_volume "again" "web-files" ∷ [];
  service_account = "";
  pull_secrets = "registry" ∷ [];
}

-- No object exists but the Pod and the ServiceAccount.
abbrev api : Api
api = record {
  config_map = λ ns name. not_found;
  secret = λ ns name. not_found;
  config_maps = λ ns. some [];
  secrets = λ ns. some [];
  pod = λ name. if str_eq name "web" then some web else none;
  claim = λ name. not_found;
  storage_class = λ name. not_found;
  storage_classes = some [];
  service_account = λ name. found ("registry" ∷ []);
}

-- Expressions that read two messages.
abbrev matches : Matches
matches = record {
  missing_keys = λ s. [];
  missing_refs =
      λ s. if str_eq s "secret \"login\" not found" then ("secret", "login") ∷ [] else [];
  volume_msg = λ s. false;
  pull_auth = λ s. str_eq s "unauthorized";
  pull = λ s. true;
  to_lower = λ s. s;
  quote = λ s. s;
}

abbrev warning : String → String → EventSummary
warning reason message = record not_ready {
  type = "Warning";
  kind = "Pod";
  object_name = "web";
  reason = reason;
  message = message;
}

abbrev events : List EventSummary
events =
    warning "Failed" "secret \"login\" not found"
    ∷ warning "Failed" "unauthorized"
    ∷ warning "FailedMount" "no volume files here"
    ∷ []

names_found :
    map (λ i. i.name) (first_rules small_cluster api matches "shop" "Pod" "web" events [] "").items
    ≡ "login" ∷ "web-files" ∷ "registry" ∷ []
unfolding first_rules follow_pull_secrets pull_secrets_of evidence_pods claims config_refs add_refs
    note_texts texts new_linker followed config_item add_linked claims_of follow_volumes
    follow_volume pod_warnings contains_word add_secrets follow_secrets pull_secret_item
names_found = refl

inside_a_name : contains_word "metadata and data." "meta" ≡ false
unfolding contains_word
inside_a_name = refl

whole_name : contains_word "metadata and data." "data" ≡ true
unfolding contains_word
whole_name = refl

first_rules_lem_example :
    Pairs
      (λ a b. item_key a ≢ item_key b)
      (first_rules small_cluster api matches "shop" "Pod" "web" events [] "").items
    × All
        (λ i. item_key i ≢ object_key "Pod" "shop" "web")
        (first_rules small_cluster api matches "shop" "Pod" "web" events [] "").items
first_rules_lem_example = first_rules_lem small_cluster api matches "shop" "Pod" "web" events [] ""
