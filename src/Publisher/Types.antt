-- ===== src/Publisher/Types.antt =====
-- modules/publisher/include/publisher/core: publisher_types.hpp and publish_token.hpp.
use Prim.Native.String.{String}
use my_server.Common.{ℕ, ◌-◌, ◌^◌}

-- `count` is the number of groups, and a value of the type that the code must refuse.
pub data ChannelGroup : Type 0 where
  group0 group1 group2 group3 count : ChannelGroup

pub data ChannelMode : Type 0 where
  exclusive shared : ChannelMode

pub data SinkKind : Type 0 where
  terminal file socket : SinkKind

unfoldable pub to_index : ChannelGroup → ℕ
to_index group0 = 0
to_index group1 = 1
to_index group2 = 2
to_index group3 = 3
to_index count = 4

unfoldable pub group_name : ChannelGroup → String
group_name group0 = "Group0"
group_name group1 = "Group1"
group_name group2 = "Group2"
group_name group3 = "Group3"
group_name count = "UnknownGroup"

-- `static_cast<std::size_t>(ChannelGroup::Count)`.
abbrev pub max_groups : ℕ
max_groups = 4

unfoldable pub sink_name : SinkKind → String
sink_name terminal = "Terminal"
sink_name file = "File"
sink_name socket = "Socket"

-- A token is its 32-bit value.
abbrev pub PublishToken : Type 0
PublishToken = ℕ

abbrev pub invalid_token : PublishToken
invalid_token = 2 ^ 32 - 1
