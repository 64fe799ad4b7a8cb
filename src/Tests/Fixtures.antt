-- ===== src/Tests/Fixtures.antt =====
-- The files of tests/fixtures, which other code than the crate's has produced.
use rtn_mq.Prelude.{[], ◌∷◌}
use rtn_mq.Prelude.Bytes.{Bytes}

-- tests/fixtures/certificate.hex
abbrev pub certificate_hex : Bytes
certificate_hex =
    0x84 ∷ 0x43 ∷ 0xa1 ∷ 0x01 ∷ 0x27 ∷ 0xa0 ∷ 0x58 ∷ 0x79 ∷ 0x89 ∷ 0x01 ∷ 0x50 ∷ 0x03 ∷ 0x03 ∷ 0x03
    ∷ 0x03 ∷ 0x03 ∷ 0x03 ∷ 0x03 ∷ 0x03 ∷ 0x03 ∷ 0x03 ∷ 0x03 ∷ 0x03 ∷ 0x03 ∷ 0x03 ∷ 0x03 ∷ 0x03
    ∷ 0x58 ∷ 0x20 ∷ 0x8a ∷ 0x88 ∷ 0xe3 ∷ 0xdd ∷ 0x74 ∷ 0x09 ∷ 0xf1 ∷ 0x95 ∷ 0xfd ∷ 0x52 ∷ 0xdb
    ∷ 0x2d ∷ 0x3c ∷ 0xba ∷ 0x5d ∷ 0x72 ∷ 0xca ∷ 0x67 ∷ 0x09 ∷ 0xbf ∷ 0x1d ∷ 0x94 ∷ 0x12 ∷ 0x1b
    ∷ 0xf3 ∷ 0x74 ∷ 0x88 ∷ 0x01 ∷ 0xb4 ∷ 0x0f ∷ 0x6f ∷ 0x5c ∷ 0x50 ∷ 0x04 ∷ 0x04 ∷ 0x04 ∷ 0x04
    ∷ 0x04 ∷ 0x04 ∷ 0x04 ∷ 0x04 ∷ 0x04 ∷ 0x04 ∷ 0x04 ∷ 0x04 ∷ 0x04 ∷ 0x04 ∷ 0x04 ∷ 0x04 ∷ 0x58
    ∷ 0x20 ∷ 0x81 ∷ 0x39 ∷ 0x77 ∷ 0x0e ∷ 0xa8 ∷ 0x7d ∷ 0x17 ∷ 0x5f ∷ 0x56 ∷ 0xa3 ∷ 0x54 ∷ 0x66
    ∷ 0xc3 ∷ 0x4c ∷ 0x7e ∷ 0xcc ∷ 0xcb ∷ 0x8d ∷ 0x8a ∷ 0x91 ∷ 0xb4 ∷ 0xee ∷ 0x37 ∷ 0xa2 ∷ 0x5d
    ∷ 0xf6 ∷ 0x0f ∷ 0x5b ∷ 0x8f ∷ 0xc9 ∷ 0xb3 ∷ 0x94 ∷ 0x18 ∷ 0x64 ∷ 0x18 ∷ 0xc8 ∷ 0x81 ∷ 0x82
    ∷ 0x64 ∷ 0x6a ∷ 0x6f ∷ 0x62 ∷ 0x73 ∷ 0x03 ∷ 0x82 ∷ 0x19 ∷ 0x04 ∷ 0x00 ∷ 0x08 ∷ 0x58 ∷ 0x40
    ∷ 0xdc ∷ 0xda ∷ 0x53 ∷ 0x50 ∷ 0x75 ∷ 0x89 ∷ 0x4f ∷ 0x47 ∷ 0xd7 ∷ 0x56 ∷ 0x46 ∷ 0x6b ∷ 0x69
    ∷ 0x36 ∷ 0xe8 ∷ 0x0d ∷ 0x02 ∷ 0x17 ∷ 0x0e ∷ 0xeb ∷ 0x61 ∷ 0x0e ∷ 0x1f ∷ 0xb5 ∷ 0x85 ∷ 0x7b
    ∷ 0x65 ∷ 0x67 ∷ 0x05 ∷ 0xdc ∷ 0x39 ∷ 0x22 ∷ 0x8a ∷ 0x81 ∷ 0x30 ∷ 0xd6 ∷ 0x8b ∷ 0x82 ∷ 0xc5
    ∷ 0x6c ∷ 0x47 ∷ 0x1e ∷ 0x27 ∷ 0x01 ∷ 0x12 ∷ 0xf4 ∷ 0x12 ∷ 0x52 ∷ 0x41 ∷ 0x84 ∷ 0x5f ∷ 0xbd
    ∷ 0xc0 ∷ 0xbe ∷ 0xfa ∷ 0x22 ∷ 0x03 ∷ 0x70 ∷ 0x35 ∷ 0x42 ∷ 0xda ∷ 0xeb ∷ 0x74 ∷ 0x0a ∷ []

-- tests/fixtures/hello.hex
abbrev pub hello_hex : Bytes
hello_hex =
    0x86 ∷ 0x01 ∷ 0x58 ∷ 0xc3 ∷ 0x84 ∷ 0x43 ∷ 0xa1 ∷ 0x01 ∷ 0x27 ∷ 0xa0 ∷ 0x58 ∷ 0x79 ∷ 0x89 ∷ 0x01
    ∷ 0x50 ∷ 0x03 ∷ 0x03 ∷ 0x03 ∷ 0x03 ∷ 0x03 ∷ 0x03 ∷ 0x03 ∷ 0x03 ∷ 0x03 ∷ 0x03 ∷ 0x03 ∷ 0x03
    ∷ 0x03 ∷ 0x03 ∷ 0x03 ∷ 0x03 ∷ 0x58 ∷ 0x20 ∷ 0x8a ∷ 0x88 ∷ 0xe3 ∷ 0xdd ∷ 0x74 ∷ 0x09 ∷ 0xf1
    ∷ 0x95 ∷ 0xfd ∷ 0x52 ∷ 0xdb ∷ 0x2d ∷ 0x3c ∷ 0xba ∷ 0x5d ∷ 0x72 ∷ 0xca ∷ 0x67 ∷ 0x09 ∷ 0xbf
    ∷ 0x1d ∷ 0x94 ∷ 0x12 ∷ 0x1b ∷ 0xf3 ∷ 0x74 ∷ 0x88 ∷ 0x01 ∷ 0xb4 ∷ 0x0f ∷ 0x6f ∷ 0x5c ∷ 0x50
    ∷ 0x04 ∷ 0x04 ∷ 0x04 ∷ 0x04 ∷ 0x04 ∷ 0x04 ∷ 0x04 ∷ 0x04 ∷ 0x04 ∷ 0x04 ∷ 0x04 ∷ 0x04 ∷ 0x04
    ∷ 0x04 ∷ 0x04 ∷ 0x04 ∷ 0x58 ∷ 0x20 ∷ 0x81 ∷ 0x39 ∷ 0x77 ∷ 0x0e ∷ 0xa8 ∷ 0x7d ∷ 0x17 ∷ 0x5f
    ∷ 0x56 ∷ 0xa3 ∷ 0x54 ∷ 0x66 ∷ 0xc3 ∷ 0x4c ∷ 0x7e ∷ 0xcc ∷ 0xcb ∷ 0x8d ∷ 0x8a ∷ 0x91 ∷ 0xb4
    ∷ 0xee ∷ 0x37 ∷ 0xa2 ∷ 0x5d ∷ 0xf6 ∷ 0x0f ∷ 0x5b ∷ 0x8f ∷ 0xc9 ∷ 0xb3 ∷ 0x94 ∷ 0x18 ∷ 0x64
    ∷ 0x18 ∷ 0xc8 ∷ 0x81 ∷ 0x82 ∷ 0x64 ∷ 0x6a ∷ 0x6f ∷ 0x62 ∷ 0x73 ∷ 0x03 ∷ 0x82 ∷ 0x19 ∷ 0x04
    ∷ 0x00 ∷ 0x08 ∷ 0x58 ∷ 0x40 ∷ 0xdc ∷ 0xda ∷ 0x53 ∷ 0x50 ∷ 0x75 ∷ 0x89 ∷ 0x4f ∷ 0x47 ∷ 0xd7
    ∷ 0x56 ∷ 0x46 ∷ 0x6b ∷ 0x69 ∷ 0x36 ∷ 0xe8 ∷ 0x0d ∷ 0x02 ∷ 0x17 ∷ 0x0e ∷ 0xeb ∷ 0x61 ∷ 0x0e
    ∷ 0x1f ∷ 0xb5 ∷ 0x85 ∷ 0x7b ∷ 0x65 ∷ 0x67 ∷ 0x05 ∷ 0xdc ∷ 0x39 ∷ 0x22 ∷ 0x8a ∷ 0x81 ∷ 0x30
    ∷ 0xd6 ∷ 0x8b ∷ 0x82 ∷ 0xc5 ∷ 0x6c ∷ 0x47 ∷ 0x1e ∷ 0x27 ∷ 0x01 ∷ 0x12 ∷ 0xf4 ∷ 0x12 ∷ 0x52
    ∷ 0x41 ∷ 0x84 ∷ 0x5f ∷ 0xbd ∷ 0xc0 ∷ 0xbe ∷ 0xfa ∷ 0x22 ∷ 0x03 ∷ 0x70 ∷ 0x35 ∷ 0x42 ∷ 0xda
    ∷ 0xeb ∷ 0x74 ∷ 0x0a ∷ 0x50 ∷ 0x06 ∷ 0x06 ∷ 0x06 ∷ 0x06 ∷ 0x06 ∷ 0x06 ∷ 0x06 ∷ 0x06 ∷ 0x06
    ∷ 0x06 ∷ 0x06 ∷ 0x06 ∷ 0x06 ∷ 0x06 ∷ 0x06 ∷ 0x06 ∷ 0x19 ∷ 0x04 ∷ 0x00 ∷ 0x08 ∷ 0x19 ∷ 0x01
    ∷ 0x2c ∷ []

-- tests/fixtures/data.hex
abbrev pub data_hex : Bytes
data_hex =
    0x00 ∷ 0x00 ∷ 0x00 ∷ 0xee ∷ 0x07 ∷ 0x00 ∷ 0x00 ∷ 0x00 ∷ 0x00 ∷ 0x00 ∷ 0x00 ∷ 0xeb ∷ 0x84 ∷ 0x01
    ∷ 0x50 ∷ 0x07 ∷ 0x07 ∷ 0x07 ∷ 0x07 ∷ 0x07 ∷ 0x07 ∷ 0x07 ∷ 0x07 ∷ 0x07 ∷ 0x07 ∷ 0x07 ∷ 0x07
    ∷ 0x07 ∷ 0x07 ∷ 0x07 ∷ 0x07 ∷ 0x50 ∷ 0x08 ∷ 0x08 ∷ 0x08 ∷ 0x08 ∷ 0x08 ∷ 0x08 ∷ 0x08 ∷ 0x08
    ∷ 0x08 ∷ 0x08 ∷ 0x08 ∷ 0x08 ∷ 0x08 ∷ 0x08 ∷ 0x08 ∷ 0x08 ∷ 0x58 ∷ 0xc5 ∷ 0x84 ∷ 0x43 ∷ 0xa1
    ∷ 0x01 ∷ 0x27 ∷ 0xa0 ∷ 0x58 ∷ 0x7b ∷ 0x8c ∷ 0x01 ∷ 0x50 ∷ 0x03 ∷ 0x03 ∷ 0x03 ∷ 0x03 ∷ 0x03
    ∷ 0x03 ∷ 0x03 ∷ 0x03 ∷ 0x03 ∷ 0x03 ∷ 0x03 ∷ 0x03 ∷ 0x03 ∷ 0x03 ∷ 0x03 ∷ 0x03 ∷ 0x58 ∷ 0x20
    ∷ 0x81 ∷ 0x39 ∷ 0x77 ∷ 0x0e ∷ 0xa8 ∷ 0x7d ∷ 0x17 ∷ 0x5f ∷ 0x56 ∷ 0xa3 ∷ 0x54 ∷ 0x66 ∷ 0xc3
    ∷ 0x4c ∷ 0x7e ∷ 0xcc ∷ 0xcb ∷ 0x8d ∷ 0x8a ∷ 0x91 ∷ 0xb4 ∷ 0xee ∷ 0x37 ∷ 0xa2 ∷ 0x5d ∷ 0xf6
    ∷ 0x0f ∷ 0x5b ∷ 0x8f ∷ 0xc9 ∷ 0xb3 ∷ 0x94 ∷ 0x50 ∷ 0x05 ∷ 0x05 ∷ 0x05 ∷ 0x05 ∷ 0x05 ∷ 0x05
    ∷ 0x05 ∷ 0x05 ∷ 0x05 ∷ 0x05 ∷ 0x05 ∷ 0x05 ∷ 0x05 ∷ 0x05 ∷ 0x05 ∷ 0x05 ∷ 0x64 ∷ 0x6a ∷ 0x6f
    ∷ 0x62 ∷ 0x73 ∷ 0x01 ∷ 0x18 ∷ 0x6e ∷ 0x18 ∷ 0x96 ∷ 0x66 ∷ 0x6f ∷ 0x70 ∷ 0x61 ∷ 0x71 ∷ 0x75
    ∷ 0x65 ∷ 0x03 ∷ 0x58 ∷ 0x20 ∷ 0xba ∷ 0x78 ∷ 0x16 ∷ 0xbf ∷ 0x8f ∷ 0x01 ∷ 0xcf ∷ 0xea ∷ 0x41
    ∷ 0x41 ∷ 0x40 ∷ 0xde ∷ 0x5d ∷ 0xae ∷ 0x22 ∷ 0x23 ∷ 0xb0 ∷ 0x03 ∷ 0x61 ∷ 0xa3 ∷ 0x96 ∷ 0x17
    ∷ 0x7a ∷ 0x9c ∷ 0xb4 ∷ 0x10 ∷ 0xff ∷ 0x61 ∷ 0xf2 ∷ 0x00 ∷ 0x15 ∷ 0xad ∷ 0x01 ∷ 0x58 ∷ 0x40
    ∷ 0x42 ∷ 0x81 ∷ 0x83 ∷ 0x64 ∷ 0x2a ∷ 0x0f ∷ 0x25 ∷ 0xc7 ∷ 0x7d ∷ 0x10 ∷ 0xda ∷ 0xb2 ∷ 0xf3
    ∷ 0x72 ∷ 0x76 ∷ 0x24 ∷ 0x13 ∷ 0xf7 ∷ 0x56 ∷ 0x8f ∷ 0x4f ∷ 0x77 ∷ 0x7e ∷ 0x49 ∷ 0x81 ∷ 0x07
    ∷ 0xf0 ∷ 0xc6 ∷ 0xfc ∷ 0x29 ∷ 0xf4 ∷ 0x5a ∷ 0x02 ∷ 0xff ∷ 0xaf ∷ 0x78 ∷ 0x6e ∷ 0x57 ∷ 0x13
    ∷ 0xc0 ∷ 0x2c ∷ 0x1a ∷ 0x82 ∷ 0xc9 ∷ 0xaf ∷ 0xfd ∷ 0x77 ∷ 0x4f ∷ 0xa5 ∷ 0x7e ∷ 0x6e ∷ 0xa6
    ∷ 0xdb ∷ 0xc8 ∷ 0xe7 ∷ 0x02 ∷ 0x4a ∷ 0xa6 ∷ 0x1a ∷ 0x2c ∷ 0x11 ∷ 0xf1 ∷ 0xfd ∷ 0x00 ∷ 0x61
    ∷ 0x62 ∷ 0x63 ∷ []

-- tests/fixtures/message.hex
abbrev pub message_hex : Bytes
message_hex =
    0x84 ∷ 0x43 ∷ 0xa1 ∷ 0x01 ∷ 0x27 ∷ 0xa0 ∷ 0x58 ∷ 0x7b ∷ 0x8c ∷ 0x01 ∷ 0x50 ∷ 0x03 ∷ 0x03 ∷ 0x03
    ∷ 0x03 ∷ 0x03 ∷ 0x03 ∷ 0x03 ∷ 0x03 ∷ 0x03 ∷ 0x03 ∷ 0x03 ∷ 0x03 ∷ 0x03 ∷ 0x03 ∷ 0x03 ∷ 0x03
    ∷ 0x58 ∷ 0x20 ∷ 0x81 ∷ 0x39 ∷ 0x77 ∷ 0x0e ∷ 0xa8 ∷ 0x7d ∷ 0x17 ∷ 0x5f ∷ 0x56 ∷ 0xa3 ∷ 0x54
    ∷ 0x66 ∷ 0xc3 ∷ 0x4c ∷ 0x7e ∷ 0xcc ∷ 0xcb ∷ 0x8d ∷ 0x8a ∷ 0x91 ∷ 0xb4 ∷ 0xee ∷ 0x37 ∷ 0xa2
    ∷ 0x5d ∷ 0xf6 ∷ 0x0f ∷ 0x5b ∷ 0x8f ∷ 0xc9 ∷ 0xb3 ∷ 0x94 ∷ 0x50 ∷ 0x05 ∷ 0x05 ∷ 0x05 ∷ 0x05
    ∷ 0x05 ∷ 0x05 ∷ 0x05 ∷ 0x05 ∷ 0x05 ∷ 0x05 ∷ 0x05 ∷ 0x05 ∷ 0x05 ∷ 0x05 ∷ 0x05 ∷ 0x05 ∷ 0x64
    ∷ 0x6a ∷ 0x6f ∷ 0x62 ∷ 0x73 ∷ 0x01 ∷ 0x18 ∷ 0x6e ∷ 0x18 ∷ 0x96 ∷ 0x66 ∷ 0x6f ∷ 0x70 ∷ 0x61
    ∷ 0x71 ∷ 0x75 ∷ 0x65 ∷ 0x03 ∷ 0x58 ∷ 0x20 ∷ 0xba ∷ 0x78 ∷ 0x16 ∷ 0xbf ∷ 0x8f ∷ 0x01 ∷ 0xcf
    ∷ 0xea ∷ 0x41 ∷ 0x41 ∷ 0x40 ∷ 0xde ∷ 0x5d ∷ 0xae ∷ 0x22 ∷ 0x23 ∷ 0xb0 ∷ 0x03 ∷ 0x61 ∷ 0xa3
    ∷ 0x96 ∷ 0x17 ∷ 0x7a ∷ 0x9c ∷ 0xb4 ∷ 0x10 ∷ 0xff ∷ 0x61 ∷ 0xf2 ∷ 0x00 ∷ 0x15 ∷ 0xad ∷ 0x01
    ∷ 0x58 ∷ 0x40 ∷ 0x42 ∷ 0x81 ∷ 0x83 ∷ 0x64 ∷ 0x2a ∷ 0x0f ∷ 0x25 ∷ 0xc7 ∷ 0x7d ∷ 0x10 ∷ 0xda
    ∷ 0xb2 ∷ 0xf3 ∷ 0x72 ∷ 0x76 ∷ 0x24 ∷ 0x13 ∷ 0xf7 ∷ 0x56 ∷ 0x8f ∷ 0x4f ∷ 0x77 ∷ 0x7e ∷ 0x49
    ∷ 0x81 ∷ 0x07 ∷ 0xf0 ∷ 0xc6 ∷ 0xfc ∷ 0x29 ∷ 0xf4 ∷ 0x5a ∷ 0x02 ∷ 0xff ∷ 0xaf ∷ 0x78 ∷ 0x6e
    ∷ 0x57 ∷ 0x13 ∷ 0xc0 ∷ 0x2c ∷ 0x1a ∷ 0x82 ∷ 0xc9 ∷ 0xaf ∷ 0xfd ∷ 0x77 ∷ 0x4f ∷ 0xa5 ∷ 0x7e
    ∷ 0x6e ∷ 0xa6 ∷ 0xdb ∷ 0xc8 ∷ 0xe7 ∷ 0x02 ∷ 0x4a ∷ 0xa6 ∷ 0x1a ∷ 0x2c ∷ 0x11 ∷ 0xf1 ∷ 0xfd
    ∷ 0x00 ∷ []
