-- ===== src/Base/Maps.antt =====
-- A JavaScript `Map` with text keys, read by `get`; the program never iterates over one.
use Prim.Native.String.{String}
use mathlib.Core.Option.{Option, none, some}
use open_bastion.Base.Tests.{◌=s=◌, if◌then◌else◌}

abbrev pub Dict : Type 0 → Type 0
Dict V = String → Option V

abbrev pub empty_dict : {V : Type 0} → Dict V
empty_dict k = none

abbrev pub set_key : {V : Type 0} → String → V → Dict V → Dict V
set_key k v d j = if k =s= j then some v else d j

abbrev pub delete_key : {V : Type 0} → String → Dict V → Dict V
delete_key k d j = if k =s= j then none else d j

-- `d.get(k) || e`
abbrev pub get_or {ℓ} : {V : Type ℓ} → Option V → V → V
get_or none e = e
get_or (some v) e = v
