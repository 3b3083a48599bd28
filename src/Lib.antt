-- ===== src/Lib.antt =====
-- pyDE1, a controller for the Decent DE1 espresso machine (src/pyDE1 of the repository).
--
-- The controller talks to the machine over Bluetooth in small packets, one class of de1/c_api.py for
-- each characteristic. A handler reads the bytes of a notification into an object of the class
-- (from_wire_bytes), and what is to be sent is built as an object, whose properties check what is
-- assigned to them, and written (as_wire_bytes). Profiles are sent as a header, frames and a tail;
-- settings, requested states, calibrations and firmware requests as one packet each; and the registers
-- of the machine are read and written through a window on its memory (decode_one_mmr and
-- pack_one_mmr0x80_write), each register with its own unit.
--
-- The weights that a scale reports go to the one ScaleProcessor, which keeps a short history of them,
-- has its four estimators compute the weight and the flow, and publishes the result.
--
-- The state updates of the machine go to the FlowSequencerImpl, which starts a sequence of tasks when a
-- flow state is entered, and opens gates for them as the flow begins and ends. One task ends the
-- sequence; others switch the tracking of the volume, the tare and the stops at a volume or weight. The
-- updates of the ScaleProcessor have the sequencer stop the flow, or go on to the next frame.
--
-- The packets of an Acaia scale are cut into messages, which may be split across packets or share one,
-- and each message is processed: a weight event is published. A profile comes as JSON; its steps become
-- frames and extension frames, which are uploaded under their numbers. A request that comes in over the
-- API is checked against the mapping of its resource before anything is set. What happens is told to
-- the subscribers of an event.
--
-- Which file models what (CApi is src/pyDE1/de1/c_api.py):
--   Base          Booleans, lists, and Python's exceptions: Method S is a method of an object with state
--                 S, which leaves a state also when it raises; Result is a function that raises
--   PyNum         int and float, and round
--   Struct        struct.pack and struct.unpack for the formats in use
--   Tests         runs on concrete inputs
--   CApi/Fixed          the range checks validate_*, and u, p0 to p16, f8_1_7 and f8_1_7_decode
--   CApi/FwVersion      FWVersion, Versions
--   CApi/Temperature    TemperatureSet, Temperatures
--   CApi/ShotSettings   SteamSetting, ShotSettings
--   CApi/State          API_MachineStates, API_Substates (in State/Enums), StateInfo, RequestedState
--   CApi/Levels         WaterLevels, AllSensors
--   CApi/Frame          ShotFrame, ShotExtFrame, ShotTail
--   CApi/Header         ShotDescHeader, HeaderWrite
--   CApi/FrameWrite     FrameWrite and its three subclasses
--   CApi/Sample         ShotState, ShotSample
--   CApi/Mmr            MMRData, ReadFromMMR, WriteToMMR; the registers (Mmr/Address) and their values
--                       (Mmr/Codec)
--   CApi/Firmware       FWImageInfo, MoveMMRWindow, FWMapRequest, SetTime
--   CApi/Calibration    CalTargets, CalCommand, Calibration
--   Scale/Estimator     src/pyDE1/scale/estimator.py: the four classes and what they need and compute
--   Scale/Processor     src/pyDE1/scale/processor.py: the history (weight_update is
--                       _weight_update_subscriber, reset is _reset) and what is published
--   Sequencer           src/pyDE1/flow_sequencer_impl.py: the gates of FlowSequencerImpl, the subscribers
--                       that open them (state_update, shot_sample_update), and the start and the end of a
--                       sequence; Sequencer/Laws has the system of sequencer, reports and end task;
--                       Sequencer/Tasks has the tasks that switch (_sequence_*), and Sequencer/Weight
--                       _select_weight_flow and _act_on_weight_subscriber
--   Sequencer/Controls  src/pyDE1/flow_sequencer.py: the settings of the espresso control, their checks,
--                       and the weights to move on at (mow_*)
--   Sequencer/Rinse     src/pyDE1/flow_sequencer_impl.py: HotWaterRinseControl, and the end of
--                       _initialize_after_connection in src/pyDE1/de1/de1.py
--   Scale/Acaia         src/pyDE1/scale/acaia.py: packing and requests; Acaia/Framing has the loop of
--                       _process_data_under_lock, Acaia/Incoming has _process_message, and
--                       Acaia/Weights the events that a scale sends
--   Json                the values that json.loads gives, and Python's operators on them
--   Profile             src/pyDE1/de1/profile.py: Profile/Reading has from_json, Profile/Writing has
--                       validate and the writes; Profile/Steps and Profile/Recipes render a profile
--   Dispatcher/Mapping  src/pyDE1/dispatcher/mapping.py: IsAt, the tree and mapping_requires
--   Dispatcher/Validate src/pyDE1/dispatcher/validate.py; Dispatcher/Accepts has the rules apart from
--                       the checks
--   EventManager        src/pyDE1/event_manager/event_manager.py: SubscribedEvent's subscribe, unsubscribe
--                       and publish
--   FirmwareFile        src/pyDE1/de1/firmware_file.py
-- A field keeps its name, in snake case. A class's properties are one data type Field and one function
-- set where they differ in their formats only. The laws stand in the children of each module.
--
-- A Python number is an exact rational: a float's rounding in value * 10 is not modelled, nor are NaN
-- and the infinities. The values that a property takes are numbers or None, and where the code
-- computes with integers (addresses, lengths, counts, keys) they are integers. What
-- recurses does so on lists and trees, but for the loop that cuts packets into messages: it has fuel of
-- one round more than the buffer has bytes, and each round that goes on shortens the buffer. What float
-- and str make of a text is a parameter (Json.Conversions), under no hypothesis, and so are what a file
-- holds (FirmwareFile), what the register of the flush's time holds after a write (Sequencer/Rinse), and
-- what the subscribers of a scale's weights raise (Scale/Acaia), where two results are for ones that do not.
--
-- Not modelled: logging, log_string and the other texts, the table of characteristics, the
-- identity of the objects that are assigned to properties, the connection to a scale, the decoding of JSON
-- texts, the table of the mappings, and every module
-- that is not named above. The code around them runs on asyncio, Bluetooth (bleak), SQLite and MQTT.
-- A subscriber of the processor holds the lock from start to end, so that it is one step of the model;
-- a subscriber of the sequencer is one step up to its only await, and of the task that ends a sequence
-- each wait is a step. Only the task of the last sequence is followed, and its cancellation may come at
-- any time. The minimum time for the last drops and the watchdog are events that may come at any time.
mod Base
pub mod PyNum
pub mod Struct
pub mod CApi
pub mod Scale
pub mod Sequencer
pub mod Json
pub mod Profile
pub mod Dispatcher
pub mod EventManager
pub mod FirmwareFile
pub mod Tests
