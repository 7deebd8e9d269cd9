-- ===== src/Linked/Follow/Pulls.antt =====
-- The rule on image pull secrets (linked.go): `pullSecrets` and `pullSecretItem`.
use kubehealth.Prelude.{
  Bool, ◌&&◌, ◌||◌, String, Option, none, some, List, [], ◌∷◌, any, str_eq, ltb, length, text_of,
  if◌then◌else◌,
}
use kubehealth.Events.{EventSummary}
use kubehealth.Linked.{LinkedItem}
use kubehealth.Linked.Follow.{
  Got, found, not_found, failed, Pod, Secret, Api, Matches, Linker, add_linked, evidence_pods,
  pod_warnings,
}

-- `refused`, over a Pod's warnings.
abbrev pub is_refused : Matches → List EventSummary → Bool
is_refused m ws =
    any
      (λ w.
        str_eq w.reason "FailedToRetrieveImagePullSecret"
        || (m.pull (text_of (w.reason ∷ " " ∷ w.message ∷ [])) && m.pull_auth w.message))
      ws

abbrev pub secret_facts : Got Secret → String → String
secret_facts (found s) of =
    text_of ("exists, type " ∷ s.type ∷ " (in imagePullSecrets of " ∷ of ∷ ")" ∷ [])
secret_facts not_found of = text_of ("does not exist (in imagePullSecrets of " ∷ of ∷ ")" ∷ [])
secret_facts failed of = text_of ("could not be read (in imagePullSecrets of " ∷ of ∷ ")" ∷ [])

-- `pullSecretItem`
unfoldable pub pull_secret_item : Api → String → String → String → LinkedItem
pull_secret_item api ns name of = record {
  rule = "pullsecret";
  kind = "Secret";
  ns = ns;
  name = name;
  facts = secret_facts (api.secret ns name) of;
  lines = [];
}

-- The loops over `imagePullSecrets`.
unfoldable pub add_secrets : Api → String → List String → Linker → Linker
add_secrets api of [] l = l
add_secrets api of (name ∷ names) l =
    add_secrets api of names (add_linked (pull_secret_item api l.ns name of) l)

abbrev pub account_or_default : String → String
account_or_default sa = if str_eq sa "" then "default" else sa

-- The item of a ServiceAccount, when neither it nor the Pod names a secret.
abbrev pub account_item : String → String → String → LinkedItem
account_item ns sa facts = record {
  rule = "pullsecret";
  kind = "ServiceAccount";
  ns = ns;
  name = sa;
  facts = facts;
  lines = [];
}

abbrev pub sets_none : String → String → String → LinkedItem
sets_none ns sa of =
    account_item ns sa (text_of ("no imagePullSecrets, and " ∷ of ∷ " sets none" ∷ []))

-- The end of the loop, by what a request for the ServiceAccount answers; `own` says that the Pod itself
-- names secrets.
abbrev pub answer_account : Api → String → String → Bool → Got (List String) → Linker → Linker
answer_account api sa of own (found names) l =
    if own || ltb 0 (length names)
    then add_secrets api (text_of ("ServiceAccount " ∷ sa ∷ [])) names l
    else add_linked (sets_none l.ns sa of) l
answer_account api sa of own not_found l =
    if own
    then l
    else add_linked
        (account_item l.ns sa
          (text_of ("does not exist; " ∷ of ∷ " sets no imagePullSecrets" ∷ [])))
        l
answer_account api sa of own failed l = if own then l else add_linked (sets_none l.ns sa of) l

-- One Pod whose images were refused.
unfoldable pub follow_secrets : Api → Pod → Linker → Linker
follow_secrets api p l =
    let of = text_of ("Pod " ∷ p.name ∷ []) in
    let sa = account_or_default p.service_account in
    answer_account api sa of (ltb 0 (length p.pull_secrets)) (api.service_account sa)
      (add_secrets api of p.pull_secrets l)

abbrev pub follow_refused : Api → Option Pod → Linker → Linker → Linker
follow_refused api none rest l = rest
follow_refused api (some p) rest l = follow_secrets api p l

-- `pullSecrets`: the first Pod that was refused and that the API has is the only one followed.
unfoldable pub pull_secrets_of : Api → Matches → List String → Linker → Linker
pull_secrets_of api m [] l = l
pull_secrets_of api m (pn ∷ pods) l =
    let rest = pull_secrets_of api m pods l in
    if is_refused m (pod_warnings l pn) then follow_refused api (api.pod pn) rest l else rest

unfoldable pub follow_pull_secrets : Api → Matches → Linker → Linker
follow_pull_secrets api m l = pull_secrets_of api m (evidence_pods l) l
