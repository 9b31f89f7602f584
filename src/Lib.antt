-- ===== src/Lib.antt =====
-- The vendor HALs of the ZTE fujisan device tree: models of their code, and the theorems that make
-- them correct.
--
-- Parts and files.
--
-- Common and its children hold what the components share: Boolean tests, `int` results with the
-- negated errno values, and lists measured by native numbers.
--
-- A2dp models audio/qcom/hal/audio_extn/a2dp.c, the A2DP offload session of the audio HAL. `State`
-- is the static `a2dp` of the file with `instance_id`, and the list of all calls made to the mixer,
-- the PCM device, the Bluetooth library and the properties, newest first (A2dp.Env, A2dp.Types). Each
-- function of the file is a function on states with the same steps: the mixer routines in
-- A2dp.Backend, `start_abr` and `stop_abr` in A2dp.Abr, the `configure_*_enc_format` functions and
-- `configure_a2dp_encoder_format` in A2dp.Encoder, `open_a2dp_output` and `close_a2dp_output` in
-- A2dp.Control, the sessions, suspension, parameters and queries in A2dp.Session, and the encoder's
-- latency in A2dp.Latency. A2dp.Resources reads a list of calls independently of the state: which
-- calls were allowed, what is still held. The invariant is stated and kept by A2dp.Invariant,
-- A2dp.InvariantEncoder, A2dp.InvariantSession, A2dp.Sound and A2dp.Histories; A2dp.Frames says what
-- the helpers leave alone, and A2dp.Sessions, A2dp.Resuming, A2dp.EncoderLaws, A2dp.Instances and A2dp.BackendLaws
-- what the functions do.
--
-- Lights models lights/lights.c: Lights.Defs has its handlers over the list of writes to the LED
-- files, and the other modules what is shown.
--
-- Rome models the Rome Bluetooth controller of bluetooth/libbt-vendor/src/hw_rome.c, with
-- `read_hci_event` of hci_uart.c beside it. `Soc` (Rome.Soc) has the variables of the file, the
-- bytes still to come and those on the wire, as a list each. `do_write` is in Rome.Write, the
-- readers in Rome.Read and Rome.Events, `frame_hci_cmd_pkt`, `hci_send_vs_cmd` and the requests in
-- Rome.Command, the download of a TLV file in Rome.Tlv, and `rome_get_tlv_file` and
-- `rome_download_tlv_file` in Rome.TlvFile, and the download of a patch in Rome.Patch. Rome.Written
-- is about `do_write`; Rome.Frames, Rome.Bounds, Rome.Nested and Rome.EventLaws are about events,
-- Rome.CommandLaws about framing, Rome.Sending, Rome.Chunks, Rome.Delivery, Rome.Download,
-- Rome.Waits and Rome.DeadLine about the download, Rome.Tags about the files, and Rome.Patched
-- about patches.
--
-- Voice models the voice calls of audio/qcom/hal/voice.c and voice_extn/voice_extn.c, with the seven
-- sessions of MULTI_VOICE_SESSION_ENABLED. `Voice` (Voice.Types) is `adev->voice` with the mode and
-- the calls made, where a session is a function's value at its index and counts its usecases in the
-- list. Voice.Usecase has `voice_start_usecase` and `voice_stop_usecase` in the steps that their
-- jumps make, Voice.Calls has `update_calls` and its callers. Voice.Held reads from the calls what is
-- open; Voice.Stopping, Voice.Starting, Voice.Updates, Voice.Sweeps and Voice.Histories carry the
-- invariant, and Voice.Muting is about the mute.
--
-- Routing models the sound devices and usecases of audio/qcom/hal/audio_hw.c, with
-- `platform_can_split_snd_device` of msm8974/platform.c. `Adev` (Routing.Types) has the counts of the
-- devices, `a2dp_started` and the calls made; Routing.Devices has `enable_snd_device` and
-- `disable_snd_device`, whose calls for the parts of a device are a parameter of one level, with two
-- levels above each other. `Hal` (Routing.Usecases) adds the list of usecases and the streams, each by
-- its address; Routing.Reroute has `derive_playback_snd_device` and `check_and_route_*_usecases`,
-- Routing.Select the choice of devices in `select_devices_with_force_switch`, and Routing.Switch the
-- switch to them, with two levels again. Routing.Depth and Routing.Nesting show that two are enough.
-- Routing.Paths and Routing.Uses are about the calls that apply and reset a device's mixer path, and
-- Routing.Bluetooth about the sessions of a2dp.c, which this code is a client of; Routing.Kept,
-- Routing.Selected and Routing.Histories carry what they show of devices over selects, and
-- Routing.Names is about the paths that devices have in common: which path a device has is a
-- parameter. Speaker protection is a call that may fail; the paths and the device that it takes itself
-- are left out. Routing.Rerouted is about the rerouting of inputs, and Routing.Moved, Routing.Gathered
-- and Routing.Clear about that of outputs.
--
-- Usb models audio/qcom/hal/audio_extn/usb.c. Usb.Text has the C library's text functions over lists
-- of bytes, Usb.Rates the "Rates:" line, the masks and `audio_extn_usb_sup_sample_rates`,
-- Usb.Capability the parser `usb_get_capability`, where a position in the text is the rest from there
-- on, Usb.Match the choice of bit width, channels and sample rate up to
-- `usb_audio_backend_apply_policy`, Usb.Devices the list of cards with its additions and removals,
-- and Usb.Queries what other files ask. Usb.RangeLines, Usb.ListLines and Usb.Parsed are about the
-- parser, Usb.Marked about the masks, Usb.MatchLaws, Usb.RateLaws and Usb.Policy about the choice,
-- Usb.Altset about service intervals, Usb.DeviceLaws and Usb.Histories about the list, and Usb.Lost
-- about what the code loses.
--
-- Sndmon models audio/qcom/hal/audio_extn/sndmonitor.c: `Monitor` (Sndmon.Defs) is the static
-- `sndmonitor` with the callbacks made so far; a poll of the monitor's thread, a registration and
-- its end are one step each. Sndmon.Enumerate finds the cards and starts the module.
-- Sndmon.Changes, Sndmon.Told and Sndmon.Listening are about what a listener is told,
-- Sndmon.Leaving about listeners that leave, and Sndmon.Counted and Sndmon.Numbered about
-- the start: how many cards it lists, and their numbers.
--
-- What the code does not implement answers by arbitrary functions of the calls so far (A2dp.Env.Env,
-- Lights.Defs.Sysfs, Rome.Soc.Uart, Voice.Types.Env, Routing.Types.Env, Routing.Usecases.Platform,
-- Usb.Devices.Env, Sndmon.Enumerate.Proc), and a theorem that needs more of it says so.
-- `check_a2dp_restore` of audio_hw.c runs while a2dp.c waits for it with the lock released; it enters
-- the file again only through `audio_extn_a2dp_start_playback` and `audio_extn_a2dp_stop_playback`,
-- and is an arbitrary sequence of those. `dlsym` answers by the calls up to the mapping of the
-- library. The loops of a2dp.c, lights.c and the voice calls run over lists or a fixed number of
-- sessions. Those of the controller have fuel: a write or a read that does not fail moves a byte, so
-- that as many rounds as bytes are enough, and an event that is read takes bytes off those to come,
-- so that no more events than bytes are read one in another. The loops over the tokens of a line and
-- over the altsets of a stream file have the length of the text as fuel, since each round takes a
-- byte of it at least.
--
-- Bytes are numbers below 256, which the UART gives as such. A command buffer stands for the bytes
-- that are sent of it. Logging is taken to be compiled in, since `get_vs_hci_event` sets a variable
-- in the arguments of a log call.
--
-- Not modelled: logging, the lookup of the PCM device's number, whose result is only passed on, and
-- the other parts of the repository: the rest of the audio HAL, the other Bluetooth transports, the
-- services for the second screen, and the shims.
pub mod Common
pub mod A2dp
pub mod Lights
pub mod Rome
pub mod Routing
pub mod Sndmon
pub mod Usb
pub mod Voice
