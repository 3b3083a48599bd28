-- ===== src/Profile.antt =====
-- ProfileByFrames of src/pyDE1/de1/profile.py: reading a profile, checking it, and what is sent of it.
pub mod Reading
pub mod Writing
pub mod Reads
pub mod Upload
pub mod Steps
pub mod Recipes
use py_de.Base.{Bool, false, Option, none, List, []}
use py_de.PyNum.{ℤ, Num}
use py_de.Json.{Json}
use py_de.CApi.Header.{Header}
use py_de.CApi.Frame.{ShotFrame, ShotExtFrame, ShotTail}

-- ProfileByFrames without the text that it was read from, and what is computed of that.
pub record Profile : Type 0 where
  pub is_json_v2 : Bool
  pub title : Option Json
  pub author : Option Json
  pub notes : Option Json
  pub beverage_type : Option Json
  pub move_on_weight_list : Option (List (Option Num))
  pub header : Option Header
  pub shot_frames : List ShotFrame
  pub shot_ext_frames : List (Option ShotExtFrame)
  pub tail : Option ShotTail
  pub tank_temperature : Option Num
  pub target_weight : Option Num
  pub target_volume : Option Num
  pub number_of_preinfuse_frames : Option ℤ

-- `__init__`
abbrev pub empty : Profile
empty = record {
  is_json_v2 = false;
  title = none;
  author = none;
  notes = none;
  beverage_type = none;
  move_on_weight_list = none;
  header = none;
  shot_frames = [];
  shot_ext_frames = [];
  tail = none;
  tank_temperature = none;
  target_weight = none;
  target_volume = none;
  number_of_preinfuse_frames = none;
}
