-- ===== src/Kube.antt =====
-- The parts of the Kubernetes objects that the program reads (k8s.io/api/core/v1). An object that
-- carries no annotations has a nil map, which reads as an empty one; the program tells the two
-- apart in one place.
use kube_service_exporter.Base.{Bool, Option, none, some, List, Text, codes, lookup}
use kube_service_exporter.Go.Int.{ℤ}

-- v1.ServiceTypeLoadBalancer, v1.ServiceTypeNodePort, v1.NodeReady, v1.ConditionTrue and
-- v1.NodeInternalIP
unfoldable pub load_balancer_type : Text
load_balancer_type = codes "LoadBalancer"

unfoldable pub node_port_type : Text
node_port_type = codes "NodePort"

unfoldable pub node_ready : Text
node_ready = codes "Ready"

unfoldable pub condition_true : Text
condition_true = codes "True"

unfoldable pub node_internal_ip : Text
node_internal_ip = codes "InternalIP"

pub record ServicePort : Type 0 where
  pub name : Text
  pub port : ℤ
  pub node_port : ℤ

pub record Service : Type 0 where
  pub namespace : Text
  pub name : Text
  pub annotations : Option (List (Text × Text))
  pub ports : List ServicePort
  -- `Spec.Type`
  pub type : Text

pub record NodeCondition : Type 0 where
  pub type : Text
  pub status : Text

pub record NodeAddress : Type 0 where
  pub type : Text
  pub address : Text

pub record Node : Type 0 where
  pub name : Text
  pub annotations : Option (List (Text × Text))
  pub unschedulable : Bool
  pub conditions : List NodeCondition
  pub addresses : List NodeAddress

-- `annotations[key]`
unfoldable pub annotation : Option (List (Text × Text)) → Text → Option Text
unfolding lookup
annotation none key = none
annotation (some m) key = lookup key m
