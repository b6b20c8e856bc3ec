-- ===== src/Go/Json.antt =====
-- JSON values as encoding/json reads and writes them. A number is kept as its text. The text format
-- itself is a parameter of the modules that use it.
use kube_service_exporter.Base.{Bool, Option, none, some, if◌then◌else◌, Text, text_eq}

mutual
  pub data Json : Type 0 where
    null : Json
    bool : Bool → Json
    num : Text → Json
    str : Text → Json
    arr : Items → Json
    obj : Fields → Json

  pub data Items : Type 0 where
    nil : Items
    cons : Json → Items → Items

  pub data Fields : Type 0 where
    end : Fields
    field : Text → Json → Fields → Fields

-- a map's value at a key
unfoldable pub get_field : Text → Fields → Option Json
get_field k end = none
get_field k (field j v fs) = if text_eq j k then some v else get_field k fs
