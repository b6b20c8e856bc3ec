-- ===== src/Exporter/Examples.antt =====
-- The watcher on the Consul target, with a Consul whose calls all succeed: its theorems at concrete inputs.
use kube_service_exporter.Base.{
  ◌+◌, ◌≡◌, refl, sym, ◌∙◌, inl, inr, Bool, true, false, none, some, List, [], ◌∷◌, ◌++◌,
  if◌then◌else◌, length, Text, codes, text_eq_iff, text_eq, has_prefix,
}
use kube_service_exporter.Go.Run.{ok}
use kube_service_exporter.Go.Strconv.{format}
use kube_service_exporter.Kube.{Service}
use kube_service_exporter.Util.{string_in_slice}
use kube_service_exporter.Export.{ExportedService, id, Indexed, found}
use kube_service_exporter.Export.Tests.{no_json, empty_index, web, web_port, runs}
use kube_service_exporter.Target.{metadata_prefix}
use kube_service_exporter.Target.Document.{hash_text}
use kube_service_exporter.Target.Examples.{codec, config}
use kube_service_exporter.Target.Examples.Wire.{decode-encode}
use kube_service_exporter.Target.Examples.World.{Agent, world, laws}
use kube_service_exporter.Target.Calm.{consul_target}
use kube_service_exporter.Target.Region.{services_region}
use kube_service_exporter.Target.Replace.{Keyed}
use kube_service_exporter.Target.Reliable.{Answers, missing}
use kube_service_exporter.ServiceWatcher.{
  add_op, new_key_op, service, Queue, exported_of, add_service, delete_service, update_service,
}
use kube_service_exporter.ServiceWatcher.Handlers.{listed}
use kube_service_exporter.ServiceWatcher.Process.{State, run_worker}
use kube_service_exporter.Exporter.Region.{run_worker-outside, run_worker-follower}
use kube_service_exporter.Exporter.Publish.{Exported, add_service-Exported}
use kube_service_exporter.Exporter.Withdraw.{
  Withdrawn, delete_service-Withdrawn, delete_service-add_service,
}
use kube_service_exporter.Exporter.Update.{Separate}
use kube_service_exporter.Exporter.Replace.{Updated, update_service-Updated}

answers : Answers world
answers = record {
  get = λ k w. (w.kv k, refl);
  put = λ k v w. (tt, refl);
  delete_tree = λ k w. (tt, refl);
  services = λ w. ([], refl);
  register = λ r w. (tt, refl);
  deregister = λ k w. (tt, refl);
  wait_for_leader = λ w. (tt, refl);
}

abbrev key_of : ExportedService → Text
key_of es = codes "kse/services/" ++ (id es ++ (codes "/clusters/" ++ es.cluster_id))

abbrev keyed : Keyed codec config
unfolding metadata_prefix hash_text
keyed = record {
  key = key_of;
  hash = λ es. format 16 (length es.name + 17);
  at_key = λ es. refl;
  hashed = λ es. refl;
}

-- a leader, and a process that does not lead, with an empty store
abbrev leading : Agent
leading = record { leads = true; kv = λ key. none }

abbrev pub following : Agent
following = record { leads = false; kv = λ key. none }

abbrev services_of : Service → List ExportedService
services_of s = listed (exported_of no_json (codes "c1") empty_index s)

services_of-web : exported_of no_json (codes "c1") empty_index web ≡ ok (services_of web)
unfolding runs exported_of
services_of-web = refl

add_service-Exported_example :
    Exported world laws answers codec decode-encode config keyed
      (services_of web)
      leading
      (add_service
        (consul_target world codec config)
        no_json
        (codes "c1")
        empty_index
        web
        leading).1
add_service-Exported_example =
    add_service-Exported world laws answers codec decode-encode config keyed no_json (codes "c1")
      empty_index web (services_of web) leading services_of-web refl λ es i. missing

delete_service-Withdrawn_example :
    Withdrawn world laws answers codec config keyed
      (services_of web)
      leading
      (delete_service
        (consul_target world codec config)
        no_json
        (codes "c1")
        empty_index
        (some web)
        leading).1
delete_service-Withdrawn_example =
    delete_service-Withdrawn world laws answers codec config keyed no_json (codes "c1") empty_index
      web leading refl

delete_service-add_service_example :
    (delete_service
        (consul_target world codec config)
        no_json
        (codes "c1")
        empty_index
        (some web)
        (add_service
          (consul_target world codec config)
          no_json
          (codes "c1")
          empty_index
          web
          leading).1).1.kv
      (codes "kse/services/default-web-http/clusters/c1")
    ≡ none
delete_service-add_service_example =
    delete_service-add_service world laws answers codec config keyed no_json (codes "c1")
      empty_index web (services_of web) leading decode-encode services_of-web refl (λ j h. refl)
      (codes "kse/services/default-web-http/clusters/c1")

-- a queue that holds one addition
abbrev pub one_item : Queue
one_item = record {
  Pending = Bool;
  add = λ ko q. true;
  get = λ q.
      if q
      then (some (new_key_op (codes "default/web") (service web) add_op), false)
      else (none, false);
  forget = λ handle q. q;
}

abbrev pub waiting_in : Agent → State (consul_target world codec config) one_item
waiting_in w = record { cache_olds = []; queue = true; world = w }

abbrev pub web_index : Text → Indexed
web_index key = found web

run_worker-outside_example :
    (run_worker
        (consul_target world codec config)
        one_item
        no_json
        (codes "c1")
        web_index
        2
        (waiting_in leading)).1.world.kv
      (codes "kse/leadership/c1-leader")
    ≡ none
unfolding services_region has_prefix
run_worker-outside_example =
    run_worker-outside world laws codec config one_item no_json (codes "c1") web_index 2
      (waiting_in leading) (codes "kse/leadership/c1-leader") refl

run_worker-follower_example :
    (run_worker
        (consul_target world codec config)
        one_item
        no_json
        (codes "c1")
        web_index
        2
        (waiting_in following)).1.world.kv
      (codes "kse/services/default-web-http/clusters/c1")
    ≡ none
run_worker-follower_example =
    run_worker-follower world laws codec config one_item no_json (codes "c1") web_index 2
      (waiting_in following) (codes "kse/services/default-web-http/clusters/c1") refl

-- the Service without its second port
abbrev narrow_web : Service
narrow_web = record web { ports = web_port ∷ [] }

services_of-narrow_web :
    exported_of no_json (codes "c1") empty_index narrow_web ≡ ok (services_of narrow_web)
unfolding runs exported_of
services_of-narrow_web = refl

true-false : {A : Type 0} → true ≡ false → A
true-false e = cc

ports-Separate : Separate keyed (services_of web) (services_of narrow_web)
unfolding runs exported_of id string_in_slice has_prefix text_eq keyed
ports-Separate = record {
  same_key = λ o n. elim [
    | inl first ↦ elim [ inl only ↦ λ e. rw (first, only) refl | inr none_else ↦ absurd none_else ]
    | inr (inl second) ↦ elim [
      | inl only ↦
          λ e. true-false (sym ((text_eq_iff (id o) (id n)).1 e) ∙ (rw (second, only) refl))
      | inr none_else ↦ absurd none_else
    ]
    | inr (inr none_else) ↦ absurd none_else
  ];
  apart = λ o n. elim [
    | inl first ↦ λ i lost. true-false (rw first at lost)
    | inr (inl second) ↦ elim [
      | inl only ↦ λ lost. rw (second, only) refl
      | inr none_else ↦ absurd none_else
    ]
    | inr (inr none_else) ↦ absurd none_else
  ];
}

update_service-Updated_example :
    Updated world laws answers codec decode-encode config keyed
      (services_of web)
      (services_of narrow_web)
      leading
      (update_service
        (consul_target world codec config)
        no_json
        (codes "c1")
        empty_index
        (some web)
        narrow_web
        leading).1
update_service-Updated_example =
    update_service-Updated world laws answers codec decode-encode config keyed no_json (codes "c1")
      empty_index web narrow_web (services_of narrow_web) leading services_of-narrow_web refl
      (λ es i. missing) ports-Separate
