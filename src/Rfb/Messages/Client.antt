-- ===== src/Rfb/Messages/Client.antt =====
-- The messages that a client sends (rfb.h).
use vncmanager.Base.{ℕ, ◌++◌, [], ◌∷◌, drop}
use vncmanager.Rfb.Wire.{Wire, at, load16, load24, load32, mem16, mem24, mem32, swap16, swap32}
use vncmanager.Rfb.Pixel
use vncmanager.Rfb.Pixel.{PixelFormat}

pub record ClientInitMessage : Type 0 where
  pub shared : ℕ

abbrev pub client_init_message : Wire ClientInitMessage
client_init_message = record {
  size = 1;
  hton = λ m. m;
  ntoh = λ m. m;
  to_mem = λ m. m.shared ∷ [];
  of_mem = λ bs. record { shared = at bs 0 };
}

pub record SetPixelFormatMessage : Type 0 where
  pub type : ℕ
  pub padding : ℕ
  pub pixel_format : PixelFormat

abbrev pub set_pixel_format_message : Wire SetPixelFormatMessage
set_pixel_format_message = record {
  size = 20;
  hton = λ m. record m { pixel_format = Pixel.hton m.pixel_format };
  ntoh = λ m. record m { pixel_format = Pixel.ntoh m.pixel_format };
  to_mem = λ m. m.type ∷ [] ++ mem24 m.padding ++ Pixel.to_mem m.pixel_format;
  of_mem = λ bs. record {
    type = at bs 0;
    padding = load24 bs 1;
    pixel_format = Pixel.of_mem (drop 4 bs);
  };
}

pub record SetEncodingsMessage : Type 0 where
  pub type : ℕ
  pub padding : ℕ
  pub number_of_encodings : ℕ

abbrev pub set_encodings_message : Wire SetEncodingsMessage
set_encodings_message = record {
  size = 4;
  hton = λ m. record m { number_of_encodings = swap16 m.number_of_encodings };
  ntoh = λ m. record m { number_of_encodings = swap16 m.number_of_encodings };
  to_mem = λ m. m.type ∷ [] ++ m.padding ∷ [] ++ mem16 m.number_of_encodings;
  of_mem = λ bs. record { type = at bs 0; padding = at bs 1; number_of_encodings = load16 bs 2 };
}

pub record FramebufferUpdateRequestMessage : Type 0 where
  pub type : ℕ
  pub incremental : ℕ
  pub x_position : ℕ
  pub y_position : ℕ
  pub width : ℕ
  pub height : ℕ

abbrev pub framebuffer_update_request_message : Wire FramebufferUpdateRequestMessage
framebuffer_update_request_message = record {
  size = 10;
  hton = λ m. record m {
    x_position = swap16 m.x_position;
    y_position = swap16 m.y_position;
    width = swap16 m.width;
    height = swap16 m.height;
  };
  ntoh = λ m. record m {
    x_position = swap16 m.x_position;
    y_position = swap16 m.y_position;
    width = swap16 m.width;
    height = swap16 m.height;
  };
  to_mem = λ m.
      m.type ∷ []
      ++ m.incremental ∷ []
      ++ mem16 m.x_position
      ++ mem16 m.y_position
      ++ mem16 m.width
      ++ mem16 m.height;
  of_mem = λ bs. record {
    type = at bs 0;
    incremental = at bs 1;
    x_position = load16 bs 2;
    y_position = load16 bs 4;
    width = load16 bs 6;
    height = load16 bs 8;
  };
}

pub record KeyEventMessage : Type 0 where
  pub type : ℕ
  pub down_flag : ℕ
  pub padding : ℕ
  pub key : ℕ

abbrev pub key_event_message : Wire KeyEventMessage
key_event_message = record {
  size = 8;
  hton = λ m. record m { key = swap32 m.key };
  ntoh = λ m. record m { key = swap32 m.key };
  to_mem = λ m. m.type ∷ [] ++ m.down_flag ∷ [] ++ mem16 m.padding ++ mem32 m.key;
  of_mem = λ bs. record {
    type = at bs 0;
    down_flag = at bs 1;
    padding = load16 bs 2;
    key = load32 bs 4;
  };
}

pub record PointerEventMessage : Type 0 where
  pub type : ℕ
  pub button_mask : ℕ
  pub x_position : ℕ
  pub y_position : ℕ

abbrev pub pointer_event_message : Wire PointerEventMessage
pointer_event_message = record {
  size = 6;
  hton = λ m. record m { x_position = swap16 m.x_position; y_position = swap16 m.y_position };
  ntoh = λ m. record m { x_position = swap16 m.x_position; y_position = swap16 m.y_position };
  to_mem = λ m. m.type ∷ [] ++ m.button_mask ∷ [] ++ mem16 m.x_position ++ mem16 m.y_position;
  of_mem = λ bs. record {
    type = at bs 0;
    button_mask = at bs 1;
    x_position = load16 bs 2;
    y_position = load16 bs 4;
  };
}

pub record ClientCutTextMessage : Type 0 where
  pub type : ℕ
  pub padding : ℕ
  pub text_length : ℕ

abbrev pub client_cut_text_message : Wire ClientCutTextMessage
client_cut_text_message = record {
  size = 8;
  hton = λ m. record m { text_length = swap32 m.text_length };
  ntoh = λ m. record m { text_length = swap32 m.text_length };
  to_mem = λ m. m.type ∷ [] ++ mem24 m.padding ++ mem32 m.text_length;
  of_mem = λ bs. record { type = at bs 0; padding = load24 bs 1; text_length = load32 bs 4 };
}

pub record SetDesktopSizeMessage : Type 0 where
  pub type : ℕ
  pub padding : ℕ
  pub width : ℕ
  pub height : ℕ
  pub number_of_screens : ℕ
  pub padding2 : ℕ

abbrev pub set_desktop_size_message : Wire SetDesktopSizeMessage
set_desktop_size_message = record {
  size = 8;
  hton = λ m. record m { width = swap16 m.width; height = swap16 m.height };
  ntoh = λ m. record m { width = swap16 m.width; height = swap16 m.height };
  to_mem = λ m.
      m.type ∷ []
      ++ m.padding ∷ []
      ++ mem16 m.width
      ++ mem16 m.height
      ++ m.number_of_screens ∷ []
      ++ m.padding2 ∷ [];
  of_mem = λ bs. record {
    type = at bs 0;
    padding = at bs 1;
    width = load16 bs 2;
    height = load16 bs 4;
    number_of_screens = at bs 6;
    padding2 = at bs 7;
  };
}

pub record SetDesktopSizeScreen : Type 0 where
  pub id : ℕ
  pub x_position : ℕ
  pub y_position : ℕ
  pub width : ℕ
  pub height : ℕ
  pub flags : ℕ

abbrev pub set_desktop_size_screen : Wire SetDesktopSizeScreen
set_desktop_size_screen = record {
  size = 16;
  hton = λ m. record m {
    id = swap32 m.id;
    x_position = swap16 m.x_position;
    y_position = swap16 m.y_position;
    width = swap16 m.width;
    height = swap16 m.height;
  };
  ntoh = λ m. record m {
    id = swap32 m.id;
    x_position = swap16 m.x_position;
    y_position = swap16 m.y_position;
    width = swap16 m.width;
    height = swap16 m.height;
  };
  to_mem = λ m.
      mem32 m.id
      ++ mem16 m.x_position
      ++ mem16 m.y_position
      ++ mem16 m.width
      ++ mem16 m.height
      ++ mem32 m.flags;
  of_mem = λ bs. record {
    id = load32 bs 0;
    x_position = load16 bs 4;
    y_position = load16 bs 6;
    width = load16 bs 8;
    height = load16 bs 10;
    flags = load32 bs 12;
  };
}
