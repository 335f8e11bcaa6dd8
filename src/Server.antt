-- ===== src/Server.antt =====
-- The server of AgnssServer/Application.cpp with its processors, AssistDataProcessor.cpp and
-- DataProcessor.cpp, in the map of DataProcessorMap.h and comn/include/TMap.h: the messages of the
-- capture side go in, and a timer brings out what is published. The times of the clocks and what
-- ZeroMQ delivers are arguments; the text that jsoncpp makes of a published message is left out,
-- and so are the sockets, the configuration, the signals and the log. Names of devices are texts
-- of fewer than 32 characters with no end mark inside.
pub mod Output
pub mod Events
use mathlib.Core.Option
use dgnss_server.Common.{
  ℕ, zero, suc, ◌+◌, ◌*◌, ◌/◌, Bool, true, false, ◌&&◌, ◌||◌, none, some, List, [], ◌∷◌, ◌++◌,
  length, take, replicate, ltb, ◌==◌, if◌then◌else◌,
}
use dgnss_server.Double.{Double}
use dgnss_server.Time.{GTime}
use dgnss_server.Assist.{Assist, DgnssDat, assist_data_input}
use dgnss_server.Assist.Init.{assist_data_init}
use dgnss_server.Comn.Memory.{blit}
use dgnss_server.Comn.Text.{same_text}
use dgnss_server.Comn.Base64

pub record UtcTm : Type 0 where
  pub year : ℕ
  pub month : ℕ
  pub day : ℕ
  pub hour : ℕ
  pub minute : ℕ
  pub sec : ℕ

-- The fields of type double of `AgnssParam` hold whole numbers.
pub record AgnssParam : Type 0 where
  pub basetime : ℕ
  pub flag : ℕ
  pub utc : UtcTm
  pub minsec : ℕ
  pub secacc : ℕ
  pub lat : ℕ
  pub lon : ℕ
  pub alt : ℕ
  pub posacc : ℕ
  pub bdsmask_low : ℕ
  pub bdsmask_high : ℕ
  pub gpsmask : ℕ

-- Each array has the bytes that its length counts.
pub record DgnssDatAll : Type 0 where
  pub dgnss_flag : ℕ
  pub dgnss_gps : List ℕ
  pub dgnss_bds : List ℕ
  pub dgnss_gpsbds : List ℕ

pub record AgnssFrameHeader : Type 0 where
  pub tag : ℕ
  pub subtype : ℕ
  pub device_type : ℕ
  pub device : List ℕ
  pub time : ℕ
  pub length_of : ℕ

-- The fields of the JSON object that `publish` sends.
pub record Published : Type 0 where
  pub header : AgnssFrameHeader
  pub param : AgnssParam
  pub aideph_gpsbds : List ℕ

pub record Processor (F : Type 0) : Type 0 where
  pub device_type : ℕ
  pub device : List ℕ
  pub assist : Assist F

abbrev pub tag_status : ℕ
tag_status = 1

abbrev pub tag_data : ℕ
tag_data = 2

abbrev pub param_of : UtcTm → AgnssParam
param_of utc = record {
  basetime = 3;
  flag = 1;
  utc = utc;
  minsec = 0;
  secacc = 60;
  lat = 0;
  lon = 0;
  alt = 0;
  posacc = 0;
  bdsmask_low = 0;
  bdsmask_high = 0;
  gpsmask = 0;
}

-- `sizeof(AgnssParam)` with doubles on multiples of 8 bytes.
abbrev pub size_of_param : ℕ
size_of_param = 88

-- The array `dgnss_gpsbdsout`.
abbrev pub out_size : ℕ
out_size = 2400

-- `encode` of Application.cpp, which has the words of `Base64::encode`.
abbrev pub encode : ℕ → List ℕ → Option.Option (List ℕ)
encode = Base64.encode

-- The array, full of 0, after `encode`, which writes an end mark behind the text.
unfoldable pub out_array : Option.Option (List ℕ) → List ℕ
out_array none = replicate out_size 0
out_array (some text) = blit (replicate out_size 0) 0 (text ++ (0 ∷ []))

unfoldable pub encoded : ℕ → List ℕ → List ℕ
encoded size input = out_array (encode size input)

-- The value that `writeBuffer` gives a field.
unfoldable pub write_buffer : List ℕ → ℕ → List ℕ
write_buffer bytes n = if ltb 0 n then take n bytes else []

module _ {F : Type 0} where
  -- `getOutput`, into structs that are 0: `none` is the return of false.
  unfoldable pub get_output : UtcTm → Assist F → Option.Option (AgnssParam × DgnssDatAll) × Assist F
  get_output utc s =
      let dat = s.dgnss_dat in
      let once = dat.dgnss_flag == 1 in
      if dat.dgnss_flag == 0 then (none, s) else (
        some (
          param_of utc,
          record {
            dgnss_flag = if once then 1 else 0;
            dgnss_gps = dat.dgnss_gps;
            dgnss_bds = dat.dgnss_bds;
            dgnss_gpsbds = dat.dgnss_refstat ++ dat.dgnss_gps ++ dat.dgnss_bds;
          },
        ),
        record s { dgnss_dat = record dat { dgnss_flag = if once then 0 else dat.dgnss_flag } },
      )

  -- `publish`: the message that is sent at the time `time`.
  unfoldable pub publish : Processor F → ℕ → AgnssParam → DgnssDatAll → Published
  publish p time param dat =
      let n = (length dat.dgnss_gpsbds + 2) / 3 * 4 + 1 in
      record {
        header = record {
          tag = tag_data;
          subtype = 0;
          device_type = p.device_type;
          device = p.device;
          time = time;
          length_of = size_of_param;
        };
        param = param;
        aideph_gpsbds = write_buffer (encoded n dat.dgnss_gpsbds) n;
      }

  -- What `handleOutput` sends.
  unfoldable pub send_output :
      Processor F → ℕ → Option.Option (AgnssParam × DgnssDatAll) → List Published
  send_output p time none = []
  send_output p time (some (param, dat)) =
      if dat.dgnss_flag == 1 then publish p time param dat ∷ [] else []

  -- `handleOutput`: what is sent, and the processor.
  unfoldable pub handle_output : UtcTm → ℕ → Processor F → List Published × Processor F
  handle_output utc time p =
      let (output, assist) = get_output utc p.assist in
      let p' = record p { assist = assist } in (send_output p' time output, p')

  -- `onTimer` with `forEach`: what is sent, and the processors.
  unfoldable pub on_timer : UtcTm → ℕ → List (Processor F) → List Published × List (Processor F)
  on_timer utc time [] = ([], [])
  on_timer utc time (p ∷ ps) =
      let (sent, p') = handle_output utc time p in
      let (later, ps') = on_timer utc time ps in (sent ++ later, p' ∷ ps')

-- Whether a text stands before another one in the order of std::string.
unfoldable pub before : List ℕ → List ℕ → Bool
before xs [] = false
before [] (y ∷ ys) = true
before (x ∷ xs) (y ∷ ys) = ltb x y || (x == y && before xs ys)

-- The map of the processors, in the order of their names.
module _ {F : Type 0} where
  unfoldable pub find : List ℕ → List (Processor F) → Option.Option (Processor F)
  find device [] = none
  find device (p ∷ ps) =
      let rest = find device ps in if same_text p.device device then some p else rest

  unfoldable pub put : Processor F → List (Processor F) → List (Processor F)
  put p [] = p ∷ []
  put p (q ∷ qs) =
      let rest = put p qs in
      if same_text q.device p.device
      then p ∷ qs
      else if before p.device q.device
      then p ∷ q ∷ qs
      else q ∷ rest

module _ {F : Type 0} ⦃d : Double F⦄ where
  -- `createDataProcessor`, whose `open` always succeeds.
  unfoldable pub create_data_processor : ℕ → List ℕ → Processor F
  create_data_processor device_type device = record {
    device_type = device_type;
    device = device;
    assist = assist_data_init;
  }

  -- `input` of AssistDataProcessor, at a time that the clock shows.
  unfoldable pub input : GTime F → List ℕ → Processor F → Processor F
  input now bytes p = record p { assist = assist_data_input now p.assist bytes }

  -- The processor that is in the map, or a new one.
  unfoldable pub processor_for : AgnssFrameHeader → Option.Option (Processor F) → Processor F
  processor_for header none = create_data_processor header.device_type header.device
  processor_for header (some p) = p

  -- A processor in the map is shared: its new state is that of the map.
  unfoldable pub handle_capture_data :
      GTime F → AgnssFrameHeader → List ℕ → List (Processor F) → List (Processor F)
  handle_capture_data now header bytes ps =
      put (input now bytes (processor_for header (find header.device ps))) ps

  unfoldable pub handle_capture_message :
      GTime F → AgnssFrameHeader → List ℕ → List (Processor F) → List (Processor F)
  handle_capture_message now header bytes ps =
      if header.tag == tag_status
      then ps
      else if header.tag == tag_data
      then handle_capture_data now header bytes ps
      else ps

  -- The body of the loop of `run`, on the parts of a message; `to_header` reads a header from the
  -- bytes of a struct.
  unfoldable pub receive :
      (List ℕ → AgnssFrameHeader)
      → GTime F
      → List (List ℕ)
      → List (Processor F)
      → List (Processor F)
  receive to_header now [] ps = ps
  receive to_header now (head ∷ []) ps = ps
  receive to_header now (head ∷ body ∷ []) ps = handle_capture_message now (to_header head) body ps
  receive to_header now (head ∷ body ∷ more ∷ rest) ps = ps
