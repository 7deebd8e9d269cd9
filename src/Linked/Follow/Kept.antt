-- ===== src/Linked/Follow/Kept.antt =====
-- What the linker of linked.go holds after its first rules: each object once, and never the one that the
-- evidence is about.
use kubehealth.Prelude.{
  Bool, true, false, not, ◌&&◌, ◌||◌, String, Option, none, some, List, [], ◌∷◌, ltb, length,
  str_eq, if◌then◌else◌,
}
use kubehealth.Events.{EventSummary}
use kubehealth.Caches.{Caches}
use kubehealth.Linked.{LinkedItem}
use kubehealth.Linked.Follow.{
  Got, found, not_found, failed, Pod, Volume, Claim, Api, Matches, Linker, add_linked, followed,
  texts, evidence_pods, pod_warnings,
}
use kubehealth.Linked.Follow.Config.{
  ConfigRef, config_item, add_some, add_refs, config_refs, note_texts,
}
use kubehealth.Linked.Follow.Claims.{
  add_claim, answer_claim, follow_claim, is_named, answer_anchor, follow_volume, follow_volumes,
  follow_pod, claims_of, class_item, follow_class, anchor_claim, claims, claim_of, claim_item,
  no_claim_item, sched_volume,
}
use kubehealth.Linked.Follow.Pulls.{
  add_secrets, answer_account, follow_refused, sets_none, follow_secrets, pull_secrets_of,
  follow_pull_secrets, pull_secret_item, account_or_default, is_refused,
}

-- What `add` keeps, each of the rules keeps.
module _ (P : Linker → Type 0)
    (kept : (it : LinkedItem) (l : Linker) → P l → P (add_linked it l)) where
  when : (b : Bool) (l m : Linker) → P l → P m → P (if b then l else m)
  when true l m p q = p
  when false l m p q = q

  add_some-keeps : (o : Option LinkedItem) (l : Linker) → P l → P (add_some o l)
  add_some-keeps none l p = p
  add_some-keeps (some it) l p = kept it l p

  add_refs-keeps :
      (api : Api) (m : Matches) (refs : List ConfigRef) (l : Linker)
      → P l
      → P (add_refs api m refs l)
  unfolding add_refs
  add_refs-keeps api m [] l p = p
  add_refs-keeps api m (r ∷ refs) l p = add_refs-keeps api m refs _ (
      when (followed l r.kind r.ns r.name) l (add_some (config_item api m l.ns r) l) p
        (add_some-keeps (config_item api m l.ns r) l p))

  pub config_refs-keeps : (api : Api) (m : Matches) (l : Linker) → P l → P (config_refs api m l)
  unfolding config_refs
  config_refs-keeps api m l p = add_refs-keeps api m (note_texts m l.ns (texts l) []) l p

  add_claim-keeps : (b c : Bool) (it : LinkedItem) (l : Linker) → P l → P (add_claim b c it l)
  add_claim-keeps b c it l p = when (b || c) (add_linked it l) l (kept it l p) p

  answer_claim-keeps :
      (c : Caches) (api : Api) (m : Matches) (a b : Bool) (claim : String) (g : Got Claim)
      (l : Linker)
      → P l
      → P (answer_claim c api m a b claim g l)
  answer_claim-keeps c api m a b claim failed l h = h
  answer_claim-keeps c api m a b claim not_found l h =
      add_claim-keeps a b (no_claim_item l.ns claim) l h
  answer_claim-keeps c api m a b claim (found pvc) l h =
      add_claim-keeps a (b && not (str_eq pvc.phase "Bound")) (claim_item c api m l.ns claim pvc) l
        h

  follow_claim-keeps :
      (c : Caches) (api : Api) (m : Matches) (p : Pod) (ws : List EventSummary)
      (o : Option (String × String)) (l : Linker)
      → P l
      → P (follow_claim c api m p ws o l)
  follow_claim-keeps c api m p ws none l h = h
  follow_claim-keeps c api m p ws (some (volume, claim)) l h =
      when (followed l "PersistentVolumeClaim" l.ns claim) l _ h (
        answer_claim-keeps c api m (sched_volume m ws || is_named ws volume claim)
          (str_eq p.phase "Pending") claim (api.claim claim) l h)

  follow_volume-keeps :
      (c : Caches) (api : Api) (m : Matches) (p : Pod) (ws : List EventSummary) (v : Volume)
      (l : Linker)
      → P l
      → P (follow_volume c api m p ws v l)
  unfolding follow_volume
  follow_volume-keeps c api m p ws v l h = follow_claim-keeps c api m p ws (claim_of p v) l h

  follow_volumes-keeps :
      (c : Caches) (api : Api) (m : Matches) (p : Pod) (ws : List EventSummary) (vs : List Volume)
      (l : Linker)
      → P l
      → P (follow_volumes c api m p ws vs l)
  unfolding follow_volumes
  follow_volumes-keeps c api m p ws [] l h = h
  follow_volumes-keeps c api m p ws (v ∷ vs) l h =
      follow_volumes-keeps c api m p ws vs _ (follow_volume-keeps c api m p ws v l h)

  follow_pod-keeps :
      (c : Caches) (api : Api) (m : Matches) (ws : List EventSummary) (o : Option Pod) (l : Linker)
      → P l
      → P (follow_pod c api m ws o l)
  follow_pod-keeps c api m ws none l h = h
  follow_pod-keeps c api m ws (some p) l h = follow_volumes-keeps c api m p ws p.volumes l h

  claims_of-keeps :
      (c : Caches) (api : Api) (m : Matches) (pods : List String) (l : Linker)
      → P l
      → P (claims_of c api m pods l)
  unfolding claims_of
  claims_of-keeps c api m [] l h = h
  claims_of-keeps c api m (pn ∷ pods) l h =
      claims_of-keeps c api m pods _ (follow_pod-keeps c api m (pod_warnings l pn) (api.pod pn) l h)

  follow_class-keeps : (api : Api) (o : Option String) (l : Linker) → P l → P (follow_class api o l)
  follow_class-keeps api none l h = h
  follow_class-keeps api (some sc) l h =
      when (str_eq sc "") l (add_linked (class_item api sc) l) h (kept (class_item api sc) l h)

  answer_anchor-keeps : (api : Api) (g : Got Claim) (l : Linker) → P l → P (answer_anchor api g l)
  answer_anchor-keeps api not_found l h = h
  answer_anchor-keeps api failed l h = h
  answer_anchor-keeps api (found pvc) l h =
      when (str_eq pvc.phase "Bound") l (follow_class api pvc.storage_class l) h
        (follow_class-keeps api pvc.storage_class l h)

  anchor_claim-keeps : (api : Api) (l : Linker) → P l → P (anchor_claim api l)
  unfolding anchor_claim
  anchor_claim-keeps api l h = answer_anchor-keeps api (api.claim l.name) l h

  pub claims-keeps :
      (c : Caches) (api : Api) (m : Matches) (l : Linker) → P l → P (claims c api m l)
  unfolding claims
  claims-keeps c api m l h =
      when _ (anchor_claim api l) (claims_of c api m (evidence_pods l) l)
        (anchor_claim-keeps api l h) (claims_of-keeps c api m (evidence_pods l) l h)

  add_secrets-keeps :
      (api : Api) (of : String) (names : List String) (l : Linker)
      → P l
      → P (add_secrets api of names l)
  unfolding add_secrets
  add_secrets-keeps api of [] l h = h
  add_secrets-keeps api of (n ∷ names) l h =
      add_secrets-keeps api of names _ (kept (pull_secret_item api l.ns n of) l h)

  answer_account-keeps :
      (api : Api) (sa of : String) (own : Bool) (g : Got (List String)) (l : Linker)
      → P l
      → P (answer_account api sa of own g l)
  answer_account-keeps api sa of own (found names) l h =
      when (own || ltb 0 (length names)) _ _ (add_secrets-keeps api _ names l h)
        (kept (sets_none l.ns sa of) l h)
  answer_account-keeps api sa of own not_found l h = when own l _ h (kept _ l h)
  answer_account-keeps api sa of own failed l h = when own l _ h (kept (sets_none l.ns sa of) l h)

  follow_refused-keeps :
      (api : Api) (o : Option Pod) (rest l : Linker)
      → P rest
      → P l
      → P (follow_refused api o rest l)
  unfolding follow_secrets
  follow_refused-keeps api none rest l q h = q
  follow_refused-keeps api (some p) rest l q h =
      let sa = account_or_default p.service_account in
      answer_account-keeps api sa _ (ltb 0 (length p.pull_secrets)) (api.service_account sa) _
        (add_secrets-keeps api _ p.pull_secrets l h)

  pull_secrets_of-keeps :
      (api : Api) (m : Matches) (pods : List String) (l : Linker)
      → P l
      → P (pull_secrets_of api m pods l)
  unfolding pull_secrets_of
  pull_secrets_of-keeps api m [] l h = h
  pull_secrets_of-keeps api m (pn ∷ pods) l h =
      let rest = pull_secrets_of-keeps api m pods l h in
      when (is_refused m (pod_warnings l pn)) _ (pull_secrets_of api m pods l)
        (follow_refused-keeps api (api.pod pn) (pull_secrets_of api m pods l) l rest h) rest

  pub follow_pull_secrets-keeps :
      (api : Api) (m : Matches) (l : Linker) → P l → P (follow_pull_secrets api m l)
  unfolding follow_pull_secrets
  follow_pull_secrets-keeps api m l h = pull_secrets_of-keeps api m (evidence_pods l) l h
