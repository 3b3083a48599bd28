-- ===== src/CApi/Mmr/Address.antt =====
-- MMR0x80LowAddr of c_api.py: the low addresses of the memory-mapped registers.
use py_de.Base.{ℕ, Bool, true, false, not, ◌&&◌, ◌||◌, leb, ltb}

pub data Addr : Type 0 where
  hw_config model cpu_board_model v13_model cpu_firmware_build debug_len : Addr
  debug_buffer debug_config fan_threshold tank_temp heater_up1_flow heater_up2_flow : Addr
  water_heater_idle_temp ghc_info pref_ghc_mci max_shot_press target_steam_flow : Addr
  steam_start_secs serial_number heater_voltage heater_up2_timeout cal_flow_est : Addr
  flush_flow_rate flush_temp flush_timeout hot_water_flow_rate steam_purge_mode : Addr
  allow_usb_charging app_feature_flags refill_kit_present user_present : Addr

unfoldable pub addr_value : Addr → ℕ
addr_value hw_config = 0x0000
addr_value model = 0x0004
addr_value cpu_board_model = 0x0008
addr_value v13_model = 0x000c
addr_value cpu_firmware_build = 0x0010
addr_value debug_len = 0x2800
addr_value debug_buffer = 0x2804
addr_value debug_config = 0x3804
addr_value fan_threshold = 0x3808
addr_value tank_temp = 0x380c
addr_value heater_up1_flow = 0x3810
addr_value heater_up2_flow = 0x3814
addr_value water_heater_idle_temp = 0x3818
addr_value ghc_info = 0x381c
addr_value pref_ghc_mci = 0x3820
addr_value max_shot_press = 0x3824
addr_value target_steam_flow = 0x3828
addr_value steam_start_secs = 0x382c
addr_value serial_number = 0x3830
addr_value heater_voltage = 0x3834
addr_value heater_up2_timeout = 0x3838
addr_value cal_flow_est = 0x383c
addr_value flush_flow_rate = 0x3840
addr_value flush_temp = 0x3844
addr_value flush_timeout = 0x3848
addr_value hot_water_flow_rate = 0x384c
addr_value steam_purge_mode = 0x3850
addr_value allow_usb_charging = 0x3854
addr_value app_feature_flags = 0x3858
addr_value refill_kit_present = 0x385c
addr_value user_present = 0x3860

abbrev pub last_known : ℕ
last_known = 0x3860

unfoldable pub can_read : Addr → Bool
can_read pref_ghc_mci = false
can_read max_shot_press = false
can_read _ = true

abbrev is_writable : Addr → Bool
is_writable fan_threshold = true
is_writable tank_temp = true
is_writable heater_up1_flow = true
is_writable heater_up2_flow = true
is_writable water_heater_idle_temp = true
is_writable target_steam_flow = true
is_writable steam_start_secs = true
is_writable heater_voltage = true
is_writable heater_up2_timeout = true
is_writable cal_flow_est = true
is_writable flush_flow_rate = true
is_writable flush_temp = true
is_writable flush_timeout = true
is_writable hot_water_flow_rate = true
is_writable steam_purge_mode = true
is_writable allow_usb_charging = true
is_writable app_feature_flags = true
is_writable refill_kit_present = true
is_writable user_present = true
is_writable _ = false

unfoldable pub can_write : Addr → Bool
unfolding addr_value
can_write a = leb (addr_value a) last_known && is_writable a

abbrev pub in_debug_buffer : ℕ → Bool
in_debug_buffer n = leb 0x2804 n && ltb n 0x3804

abbrev is_firmware_build : Addr → Bool
is_firmware_build cpu_firmware_build = true
is_firmware_build _ = false

unfoldable pub read_once : Addr → Bool
unfolding can_read can_write addr_value
read_once a =
    can_read a
    && not (can_write a)
    && not (in_debug_buffer (addr_value a))
    && not (is_firmware_build a)

abbrev is_volatile : Addr → Bool
is_volatile allow_usb_charging = true
is_volatile debug_len = true
is_volatile user_present = true
is_volatile _ = false

unfoldable pub read_always : Addr → Bool
unfolding addr_value
read_always a = is_volatile a || in_debug_buffer (addr_value a)
