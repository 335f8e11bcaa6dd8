-- ===== src/Lib.antt =====
-- The DGNSS server turns the observations of a reference receiver into RTCM 3 messages. The bytes
-- of the receiver, in NovAtel's OEM4 format, go into AssistData_Input of AgnssServer/AssistData.c,
-- one after the other. A range message fills a table of observations; raw2rtcm splits it by
-- system, and gen_rtcm3 and encode_type1005 make the messages 1074 (GPS), 1124 (BeiDou) and 1005
-- (the station), which `DgnssDat` publishes for the rest of the server. The server of
-- AgnssServer/Application.cpp keeps an AssistDataProcessor for each device, gives it the bytes that
-- AgnssCapture sends for the connections of its receivers, and on a timer publishes the three
-- messages of each as a Base64 text. The timer queue, the Base64 code and a byte buffer are those
-- of the common library, comn.
--
-- Common        names of the libraries, arrays as lists, integers, powers and loops
-- Bits          setbitu, getbitu, getbits, setbits, exsign, and the readers U1, U2, U4, I4, R8
-- Double        the operations on doubles, as an interface, and an instance of whole numbers
-- Time          epoch2time, time2epoch, gpst2time, time2gpst, adjgpsweek, the leap seconds, ...
-- Sat           satno, satsys, to_satid, to_sigid, decode_trackstat, checkpri and the tables
-- Crc           crc32, crc24q, MxtChkSum_Cal, in Signed CalCheckSum, in Line MxtChkSum_Chk
-- Receiver      the part of `raw_t` for the receiver; sync_oem4, input_oem4, decode_oem4,
--               decode_rangeb, decode_rangecmpb and obsindex
-- Rtcm          the part of `rtcm_t` for the encoder; gen_msm_index, gen_msm_sat, gen_msm_sig, the
--               encoders of the fields, encode_msm4, gen_rtcm3 and encode_type1005
-- Assist        AssistData_Init, raw2rtcm and AssistData_Input, on the state of both
-- Comn          the common library: IOBuffer of comn/include/TIOBuffer.h in IoBuffer, ByteBuffer of
--               comn/include/TByteBuffer.h in ByteBuffer, CTimerQueue of
--               comn/src/CTimerQueue.cpp in Timer, comn/src/Base64.cpp in Base64,
--               comn/src/IniFile.cpp in IniFile and comn/src/PercentEncoding.cpp in
--               PercentEncoding, with byte arrays and size_t
--               in Memory and texts in Text
-- Server        AgnssServer/Application.cpp, AssistDataProcessor.cpp and DataProcessor.cpp, with
--               the map of comn/include/TMap.h and the structs of AgnssCommon/AgnssType.h
-- Capture       the program in front of the server: AgnssCapture/TcpServer.cpp, TcpConnection.cpp,
--               CaptureTcpServer.cpp, CaptureTcpConnection.cpp and CCaptureSink.cpp
-- Config        AgnssServer/AppConfig.cpp, which AgnssCapture has a copy of
-- Ephemeris     decode_subfrm1 to decode_subfrm5, decode_frame and decode_almanac, and the messages
--               decode_rawephemb, decode_gpsephemerisb and decode_bdsephemerisb
-- Examples      runs of the theorems at concrete inputs
--
-- A function of C that changes a struct takes the struct's record and returns the new one; what it
-- writes through other pointers is a component of its result, and a return of -1 or 0 for an error
-- is `none` or `false`, or the integer where callers use it. A loop is recursion on the rounds
-- that are to go, `for_loop` where nothing ends it early; the padding loop has seven rounds, which
-- is enough for a byte. Arrays are lists; a read out of bounds gives 0 and a write there changes
-- nothing. Doubles are a parameter, `Double F`, with the conversions of C; where a theorem needs
-- more, `IsExact` says that they are exact on whole numbers up to 2^53, as IEEE 754 has it, and
-- that the conversion to int is for those of 32 bits. The system clock is an argument. A range
-- message that announces more than 48806444 records can make C read past its buffer, since the
-- length that it asks for wraps around; the bytes that it reads there are 0 here.
--
-- In the C++ parts an object is a record too. The steps of the timer queue that hold its lock are
-- values of a type, so that a list of them is an interleaving of threads; a handler is a parameter
-- that may change the list. Events of the server are a list of messages and of times at which its
-- timer fires. The headers of the capture side are read back as sent where the fields of their
-- struct can hold them, device names of 31 characters at most. What ZeroMQ delivers and the clocks
-- show are arguments, the server's clock by the time of the message that comes in, and jsoncpp's
-- text is left out, so that a published message is its fields. The inner loop of `encode` has
-- three rounds at most, since it starts with at most 14 bits and takes 6 in each, and so has its
-- padding loop; the rounds of the timer's thread have fuel, and a theorem says how much is enough.
--
-- A configuration file is its text, which is split into lines as std::getline does it; the words
-- and numbers of its values are read and written as the streams of C++ do it in the C locale. The
-- digits of an int have fuel for ten. The messages with ephemerides are modelled although their
-- calls in decode_oem4 are commented out, and decode_rangecmpb although nothing calls it: its unset
-- wave length is an argument.
--
-- Not modelled: memory that runs out, the lines that are printed, the sockets,
-- threads, files and paths of the C++ programs, and the Java caster.
pub mod Common
pub mod Bits
pub mod Double
pub mod Time
pub mod Sat
pub mod Crc
pub mod Receiver
pub mod Rtcm
pub mod Assist
pub mod Comn
pub mod Server
pub mod Capture
pub mod Config
pub mod Ephemeris
pub mod Examples
