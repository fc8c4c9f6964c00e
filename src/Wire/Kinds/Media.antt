-- ===== src/Wire/Kinds/Media.antt =====
-- crates/wzp-proto/src/media_type.rs
use wzp.Common.{ℕ, ◌≡◌, refl, ◌<◌, Option, none, some, arith, ◌==◌, if◌then◌else◌}

-- `enum MediaType`, its discriminants in `to_wire`.
pub data MediaType : Type 0 where
  audio video data_stream control : MediaType

unfoldable pub to_wire : MediaType → ℕ
to_wire audio = 0
to_wire video = 1
to_wire data_stream = 2
to_wire control = 3

unfoldable pub from_wire : ℕ → Option MediaType
from_wire v =
    if v == 0
    then some audio
    else (if v == 1
        then some video
        else (if v == 2 then some data_stream else (if v == 3 then some control else none)))

pub from_wire-to_wire : (t : MediaType) → from_wire (to_wire t) ≡ some t
unfolding from_wire to_wire
from_wire-to_wire audio = refl
from_wire-to_wire video = refl
from_wire-to_wire data_stream = refl
from_wire-to_wire control = refl

pub to_wire_of_from_wire : (v : ℕ) (t : MediaType) → from_wire v ≡ some t → to_wire t ≡ v
unfolding from_wire to_wire
to_wire_of_from_wire v audio h = ground arith
to_wire_of_from_wire v _ h = ground arith

pub to_wire-lt : (t : MediaType) → to_wire t < 256
unfolding to_wire
to_wire-lt t = ground arith
