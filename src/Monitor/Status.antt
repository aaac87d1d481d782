-- ===== src/Monitor/Status.antt =====
-- monitor/status/status.go: the status in memory, and the file that it is loaded from and saved to.
-- The package encoding/json is a parameter, and so is whether the file can be opened.
use resticprofile.Base.{Bool, true, false, [], Option, none, some, if◌then◌else◌, Text}
use resticprofile.Text.Maps.{Map, lookup, put}
use resticprofile.Monitor.Profile.{Profile, new_profile}

-- The field Profiles.
abbrev pub Status : Type 0
Status = Map Profile

-- encoding/json: the bytes that Encode writes, and Decode into a status that may hold profiles already.
pub record Json : Type 1 where
  pub Content : Type 0
  pub encode : Status → Content
  pub decode : Content → Status → Status

-- The status file, and whether it can be opened for reading and for writing.
pub record Disk (json : Json) : Type 0 where
  pub file : Option json.Content
  pub readable : Bool
  pub writable : Bool

abbrev pub new_status : Status
new_status = []

module _ (json : Json) where
  unfoldable pub load_file : Option json.Content → Status → Status
  load_file none s = s
  load_file (some content) s = json.decode content s

  unfoldable pub load : Disk json → Status → Status
  unfolding load_file
  load d s = if d.readable then load_file d.file s else s

  -- The Boolean tells whether there was no error.
  unfoldable pub save : Disk json → Status → Disk json × Bool
  save d s = if d.writable then (record d { file = some (json.encode s) }, true) else (d, false)

-- Profile: the profile of a name, which is made when it is not there.
unfoldable pub found_or_made : Text → Status → Option Profile → Status × Profile
unfolding put
found_or_made name s (some profile) = (s, profile)
found_or_made name s none = (put name new_profile s, new_profile)

unfoldable pub profile_of : Text → Status → Status × Profile
unfolding lookup found_or_made
profile_of name s = found_or_made name s (lookup name s)

-- A method of Profile that changes the profile of a name in place.
unfoldable pub change_profile : Text → (Profile → Profile) → Status → Status
unfolding profile_of
change_profile name change s = let (s', profile) = profile_of name s in put name (change profile) s'
