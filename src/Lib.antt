-- ===== src/Lib.antt =====
-- Verification library of the EIB emulator's protocol stack (EIBCommNEO), with the helpers that it takes
-- from pentagon.
--
-- The program emulates devices on an EIB (KNX) bus. An APDU is one request or answer of the application
-- layer: a class of apdu.h, two control bytes and parameters, which BuildMe writes and GetParams
-- reads. A frame is what goes over the wire: a short frame of one byte, a standard frame for an APDU of
-- 1 to 15 bytes, or an extended frame for a longer one. `Frame::BuildFrameFromAPDU` packs an APDU;
-- `Frame::BuildFrameFromBuff` recognises a frame in received bytes, tests its checksum and, on
-- request, whether its address belongs to a device of the DeviceManager; `APDU::BuildAPDUFromFrame`
-- asks the classes in turn which of them has the control bytes and makes an object of that class.
--
-- Base: lists, blocks of bytes in which an access past the end is a `fault`, results, bits.
-- Pentagon: pentagon/pentagon.cpp. Checksum is xor_check_sum, Mask is mask_num, Hex is bins2hexs and
--   hexs2bins, Bitstream is build_mask_code, the shifts of bit streams and ceil_divide, Bitstream/Value
--   proofs about the shifts.
-- Apdu: EIBCommNEO/apdu.h and apdu.cpp. Types has the base class, its subclasses as the type ApduType
--   with the control bytes of their constructors, Resize, BasicInfo, ApciMatch and Spawn. PropertyValue,
--   Property, GroupValue, Link, Authorize, UserMemory and IndividualAddress have the BuildMe and
--   GetParams of the classes so called.
-- Device: EIBCommNEO/IDevice.h and DeviceManager.cpp. Manager has the table over any implementation of
--   the device interface; Visits is about its iterator and the lookups, Numbers about new device
--   numbers, Removal about RemoveDev.
-- Frame: EIBCommNEO/Frame.h and Frame.cpp. Types has the members and their readers, Build the
--   constructors from an APDU, Parse the parsers, Extract the way back to an APDU. Layout, RoundTrip,
--   Header, Accepted, Returns, Whole, Addressed, Oversized, Short, Corruption, Repeat, Dispatch, Unique, LinkRead and
--   Transmission are proofs about them.
-- Txt: EIBCommNEO/DeviceImpl_TXT.h and .cpp, and group_object.cpp: a device that keeps its properties in
--   memory. Types has the state, ElemTypeField and propfields_parser, with mem_t as a block that starts
--   with the fields of a property; Fields the operations on properties, Elements those on their values,
--   Links and Addresses the tables of links and group addresses, Groups the group objects, Memory the
--   user memory. Links/Table says which list of links a device has; Links/Adding, Links/Removing,
--   Elements/Pairs, Elements/Bounds and Memory/Upper are proofs.
-- Respond: `Response` of EIBCommNEO/apdu.cpp. Services has what the answers call of IDevice; Properties,
--   Groups and Others have `Response` of the requests that read (property values, properties, group
--   values, links, authorization, user memory) and `BuildMe` of their responses; Writing, Linking and Individual
--   those of the requests that write (Services, Writers and Linkers are what they call of a device), and of the individual
--   addresses; Dispatch chooses among them, as the virtual call does, and has Frame::Response. Answers, Overrun,
--   Writing/Found, Individual/Everywhere, Dispatch/Numbers and Dispatch/Frames are proofs.
-- Channel: EIBCommNEO/CommBase.h and CommBase.cpp. Parser has FrameParser and parse_recv_buff_ex, which look
--   for frames in received bytes; Buffer the buffer of the receiving thread, Queue the queue of received
--   frames with ClearOldFrames and RemoveFrameFromRxQueue, Receiver a round of rx_thread, Waiting the scan
--   of rx_sync, Waiting/Loop its rounds, Peeker FramePeeker. Parser/Sound, Parser/Leaves, Parser/Ends, Buffer/Room, Queue/Age,
--   Queue/Removal, Receiver/Room, Receiver/Ends, Waiting/First, Waiting/Loop/Ends and Peeker/ByType are proofs.
-- Emulator: EIBCommNEO/EIBEmulatorImpl.h and EIBEmulatorImpl.cpp, the requests to other stations. A request
--   builds its APDU (Apdu), packs it (Frame), is sent over a channel, and takes the answer out of a received
--   frame. Comm is what it calls of a channel, with rx_sync_ex; Comm/Filter has the law that a channel's
--   frames have passed the tests of Channel.Waiting, and shows that rx_sync keeps it. Restrictions is what an answer must
--   be (GetExpectedAPDUTypes, impose_response_restrictions), Exchange has tx_rx_sync, tx_rx_till_timeout_sync and
--   set_host_addr, Values PropertyValue_Read and PropertyValue_Write with their second forms, Records the other
--   requests to one device, Groups those that many devices may answer, Raw Send_Rawdate, Listening rx_tx_sync, which answers a request of another station. Comm/Collected, Exchange/Steps,
--   Exchange/Answered, Raw/Short and the modules below Values are proofs; Values/Connected has the
--   station that answers read requests, by Respond, at the other end of a channel.
-- Tests: the theorems at concrete inputs.
--
-- State is passed explicitly: an operation that changes an object returns the changed record. An
-- `Outcome` is a result, an abort, or a fault where the code reads or writes outside a block or runs
-- into an endless loop. A null pointer is `none`. A UCHAR length wraps at 256. The settings of
-- MyConfig and the bytes that a new allocation happens to hold are a parameter, the record Env. The
-- iterator of the table is an index into the list of devices in the order of their numbers; the
-- search over it has one round of fuel more than there are devices, which is enough, and so has the
-- search for a free number. The loop of parse_recv_buff_ex over frames of one length has one round of fuel
-- more than there are bytes, which is enough; a tried length is cut to the UCHAR that the parser of a frame takes. GetTickCount is a parameter, its answers in the order of the calls, and
-- so are the queue and the requests to quit that the rounds of rx_sync meet; those rounds are its fuel.
-- rx_sync_ex has its rounds as fuel; the theorem about it says how many are enough. A loop of the emulator over repeated attempts
-- makes one attempt (`numtring` is 1), and is written as that.
-- `mask_num` shifts at most four times, since a mask digit has four bits.
--
-- Not modelled: Init, Uninit, the listening thread around rx_tx_sync and the functions on devices of the emulator, what the channels (serial port, UDP) read from and write to the operating system, the locks,
-- the sending thread, the reading and writing of a device's text file, the script machine fx_vm, the
-- Lua host, and the vendored Lua and regular expressions.
pub mod Base
pub mod Pentagon
pub mod Apdu
pub mod Device
pub mod Frame
pub mod Txt
pub mod Respond
pub mod Channel
pub mod Emulator
pub mod Tests
