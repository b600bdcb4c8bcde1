-- ===== src/Json.antt =====
-- JSON documents: what json.loads returns and json.dumps prints. An object's members stand in
-- their order; json.loads keeps the last of two members with one name, so names are distinct.
pub mod Dumps
use cekat_event_sdk.Base.{
  ℕ, zero, suc, ◌+◌, max, ℤ, Float, Text, Bool, Option, none, some, text_eq, if◌then◌else◌,
}

mutual
  pub data Json : Type 0 where
    null : Json
    bool : Bool → Json
    int : ℤ → Json
    float : Float → Json
    str : Text → Json
    arr : Items → Json
    obj : Members → Json

  pub data Items : Type 0 where
    nil : Items
    cons : Json → Items → Items

  pub data Members : Type 0 where
    end : Members
    member : (name : Text) → Json → Members → Members

-- dict.get
unfoldable pub get : Text → Members → Option Json
get key end = none
get key (member name value rest) = if text_eq name key then some value else get key rest

-- dict[key] = value: the place of a key that is there is kept.
unfoldable pub put : Text → Json → Members → Members
put key value end = member key value end
put key value (member name old rest) =
    let later = put key value rest in
    if text_eq name key then member name value rest else member name old later
