-- ===== src/Channel/Parser/Ends.antt =====
-- `FrameParser` of EIBCommNEO/CommBase.cpp comes to its end inside the buffer of the receiving thread.
use edifice.Frame.Types.{Frame}
use edifice.Frame.Returns.{Returns}
use edifice.Channel.Parser.Leaves.{Leaves}
