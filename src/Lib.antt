-- ===== src/Lib.antt =====
-- cydrust shows, on a small ESP32 touch display, which sessions of coding assistants work, wait or
-- are idle on a developer's machines. A bridge (bridge/src) collects the sessions and serves them
-- as `/state`; the firmware (firmware/src) receives that state over USB, WiFi or BLE, draws it, and
-- sends acknowledgements back. These files model parts of both and prove what makes them correct.
--
-- The firmware's display:
--   Sprite (Decode, Bounds, Picture): firmware/src/sprite.rs, whole. `parse` and `frame` run in the
--     monad `Run`, where an index out of range is a `panic`; `next` is the iterator's step.
--   Proto (Model, Same, Reflexive): the data model of firmware/src/proto.rs and its derived
--     equality. f32 is a parameter `F` with its own test `same_f`.
--   Proto.Text (Cut): `trunc_bytes` of firmware/src/proto.rs, on the bytes of a text.
--   Proto.Scan (Capped, Find): the sessions' part of `parse_state`, with `extract_str` and
--     `num_field`, as a loop over the characters with its state. The parsing of a number is a
--     parameter.
--   Proto.Provider (Capped): `parse_provider` and `parse_metrics`, the other parts. Proto.State
--     (Bounded): `parse_state`, composed of them. Proto.Show (Wrapped): `wrap_lines` and the
--     formatting of times.
--   Mascot (Ladder, Delay): firmware/src/mascot.rs, whole.
--   Ui.Tabs (Geometry): `tab_list`, `draw_tab_bar` and `tab_at` of firmware/src/main.rs.
--   Ui.Settings (Valid, Stored): `Settings`, `settings_touch`, `snap_sleep`, `settings_load` and
--     `settings_save` of firmware/src/main.rs. The store of the device is a record of values that
--     may be missing.
--   Ui.Cards (Touch): `session_overflow`, the slots of `render_sessions`, and `sessions_touch`.
--   Ui.Art (Idle): `ArtState`, with times as milliseconds on one clock.
--   Ui.Loop (Kept, Screen, Drawn, Current): one round of the loop of the USB build for a colour
--     display, from what it reads of the world (`Input`) to what it does (`Effect`). It calls the
--     functions of all the modules above, except that a paint is an effect: its pixels are not
--     described.
--   Transport (Reads, Shown): the reader of the USB build and `fetch_state` in
--     firmware/src/main.rs, and the callback of a write in firmware/src/ble.rs, from bytes to the
--     shared state.
--   Eink (Refresh, Spaced): firmware/src/eink.rs, the picture and a round of the loop of the
--     e-paper build, with times as milliseconds on one clock.
--   Ota (Fresh, Written): firmware/src/ota.rs, `check_and_update` with what the partition, the
--     server and the flash answer as arguments.
--
-- The bridge:
--   Bridge.Map (Find): std's `HashMap`, as a list of pairs whose order stands for the order of
--     iteration.
--   Bridge.Model: f64's operations as a record, and the sessions and rows of bridge/src/model.rs.
--   Bridge.State (Single, Alarm): bridge/src/state.rs. Each call of `Store` holds the lock from its
--     first line to its last, so the threads' calls are one sequence of operations, in any order.
--   Collect (Claude, Codex, Databases; Claude.Turn, Codex.Last, Codex.Verdict):
--     bridge/src/collector.rs, collector_codex.rs, collector_opencode.rs and collector_hermes.rs,
--     each scan as the list of its calls on the store. Collect.Scans (Waits, Marks): a round of the
--     scan loop of bridge/src/main.rs.
--   Bridge.Federation (Merge, Node): bridge/src/federation.rs without its network calls.
--   Bridge.Hub (Guard, Kept): the guard and the handlers of bridge/src/hub.rs, as far as they
--     change the store and the remote sessions. The comparison of tokens is a parameter, the
--     crate's. Bridge.Hub.Answer (Told) models the answer of `/state`, and Bridge.Hub.Exposition
--     (Samples) the text of `/metrics`; the printing of numbers is a parameter.
--   Bridge.Rows (Order, Group, Cut, Shown, Distinct): `derive_rows` of bridge/src/hub.rs: the loop
--     over the sessions, the groups by tool and project, the representative of a group, the sort
--     and the cap of 100.
--   Metrics (Number, Price, Build, Claude, Codex, Stores, Summary; Sums, Balanced, Sorted):
--     bridge/src/metrics.rs, today's tokens and costs. A `BTreeMap` is a list of pairs in the order
--     of its keys (Tree), an i64 its bits, and f64 a record of operations. The files of a walk, the
--     rows of a query and serde_json's parser are arguments. Metrics.Titles (Short) models the
--     choice and the cut of a session's title.
--   Usage (Claude, Codex, Project, Capacity): bridge/src/usage.rs, from the headers or the lines
--     that come in to the readings and the verdict.
-- The programs beside the bridge:
--   Hooks (Arrays, Strip, Marked, Merge, Again, Args): bridge/src/bin/install_hooks.rs, the merge
--     into the settings and the arguments. Hooks.Send: bridge/src/bin/vibe_hook.rs.
--   Serial (Lines, Chunks, Compact, Mini, Ack): bridge/src/bin/serial_bridge.rs, the buffer of the
--     reads, the acknowledgements and the reduced payload.
--   Json: serde_json's values, without the order of an object's keys. Strings and Chars: the
--     methods on `str` that these programs use, on bytes and on characters.
-- The calls of the scans are operations of Bridge.State. The reduced payload is what Proto.State reads
-- on the device, where Transport takes it out of the bytes.
--
-- Prelude holds what they share: tests on native numbers, lists measured by them, integers, and
-- `Run`. Bytes and machine integers are native numbers; where the source wraps, the model writes
-- `% 2 ^ w`. Loops over lists are structural. Two loops run on fuel: that of
-- `Sprite.collect` has one round more than the 128 * 128 pixels at which the iterator ends, and that
-- of `Serial.drain_lines` has as many rounds as the buffer has bytes, each of which takes one byte
-- at least.
--
-- Not modelled: drawing of text and shapes, fonts and colours, and the icons; the bit-banged touch
-- controller; the setting up of devices and of requests, which are calls of third-party libraries. Of
-- the bridge, the walks over directories, the reads of files, the queries and requests, which are
-- arguments; the configuration, the threads and the other loops of bridge/src/main.rs; the maps of
-- titles; and of the programs beside it what they read, write and print. Of firmware/src/proto.rs, the
-- printing of f32.
pub mod Prelude
pub mod Proto
pub mod Sprite
pub mod Mascot
pub mod Ui
pub mod Bridge
pub mod Chars
pub mod Collect
pub mod Eink
pub mod Hooks
pub mod Json
pub mod Metrics
pub mod Ota
pub mod Serial
pub mod Strings
pub mod Transport
pub mod Tree
pub mod Usage
