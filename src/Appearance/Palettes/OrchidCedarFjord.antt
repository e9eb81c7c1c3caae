-- ===== src/Appearance/Palettes/OrchidCedarFjord.antt =====
-- The palettes orchid, cedar and fjord of web/src/theme.ts.
use file_harbor.Base.{codes}
use file_harbor.Appearance.Colors.{FullPaletteScheme}

abbrev pub orchid_light : FullPaletteScheme
orchid_light = record {
  primary = record {
    main = codes "#74557F";
    light = codes "#A17DAA";
    dark = codes "#553B60";
    contrast_text = codes "#FCF9FC";
  };
  secondary = record {
    main = codes "#5D657C";
    light = codes "#8C94AA";
    dark = codes "#434A60";
    contrast_text = codes "#FCF9FC";
  };
  canvas = codes "#F4EFF4";
  paper = codes "#FCF9FC";
  app_bar = codes "#ECE4EC";
  overlay = codes "#F8F3F8";
  table_header = codes "#F0EAF0";
  text = record {
    primary = codes "#342D37";
    secondary = codes "#695E6B";
    disabled = codes "#867A88";
  };
  divider = codes "#DED3DE";
  action = record {
    hover = codes "#EEE5EE";
    selected = codes "#E3D5E5";
    disabled = codes "#867A88";
    disabled_background = codes "#EAE3EA";
  };
  focus = codes "#553B60";
  shadow = codes "#553B60";
  texture = record {
    dot = codes "104 78 111";
    wash = codes "127 91 137";
    glow = codes "111 111 151";
  };
}

abbrev pub orchid_dark : FullPaletteScheme
orchid_dark = record {
  primary = record {
    main = codes "#D2B7DE";
    light = codes "#E7D5ED";
    dark = codes "#A48AB2";
    contrast_text = codes "#211923";
  };
  secondary = record {
    main = codes "#B9C1DE";
    light = codes "#D7DCF0";
    dark = codes "#8993B4";
    contrast_text = codes "#211923";
  };
  canvas = codes "#211923";
  paper = codes "#2D2230";
  app_bar = codes "#1B141D";
  overlay = codes "#382A3A";
  table_header = codes "#281E2B";
  text = record {
    primary = codes "#F5EFF6";
    secondary = codes "#D1C4D2";
    disabled = codes "#968B98";
  };
  divider = codes "#514153";
  action = record {
    hover = codes "#3B2E3D";
    selected = codes "#4C3A50";
    disabled = codes "#968B98";
    disabled_background = codes "#342936";
  };
  focus = codes "#D2B7DE";
  shadow = codes "#09060A";
  texture = record {
    dot = codes "239 226 243";
    wash = codes "178 139 190";
    glow = codes "177 183 222";
  };
}

abbrev pub cedar_light : FullPaletteScheme
cedar_light = record {
  primary = record {
    main = codes "#8A572E";
    light = codes "#B78359";
    dark = codes "#69401E";
    contrast_text = codes "#FCF9F4";
  };
  secondary = record {
    main = codes "#516B61";
    light = codes "#81988E";
    dark = codes "#385148";
    contrast_text = codes "#FCF9F4";
  };
  canvas = codes "#F5F0E9";
  paper = codes "#FCF9F4";
  app_bar = codes "#EDE4D8";
  overlay = codes "#F9F4ED";
  table_header = codes "#F1E9DE";
  text = record {
    primary = codes "#35291E";
    secondary = codes "#6B5B4B";
    disabled = codes "#897868";
  };
  divider = codes "#DFD0BF";
  action = record {
    hover = codes "#F0E5D8";
    selected = codes "#EAD7C3";
    disabled = codes "#897868";
    disabled_background = codes "#ECE2D6";
  };
  focus = codes "#69401E";
  shadow = codes "#69401E";
  texture = record { dot = codes "118 77 44"; wash = codes "151 96 55"; glow = codes "98 130 115" };
}

abbrev pub cedar_dark : FullPaletteScheme
cedar_dark = record {
  primary = record {
    main = codes "#E7BF84";
    light = codes "#F3DBAF";
    dark = codes "#BB8D52";
    contrast_text = codes "#221B16";
  };
  secondary = record {
    main = codes "#A8CCBC";
    light = codes "#C5E0D3";
    dark = codes "#759D8D";
    contrast_text = codes "#221B16";
  };
  canvas = codes "#221B16";
  paper = codes "#30261E";
  app_bar = codes "#1B1511";
  overlay = codes "#3A2E24";
  table_header = codes "#2A211A";
  text = record {
    primary = codes "#F7F0E6";
    secondary = codes "#D5C5B4";
    disabled = codes "#9C8D7D";
  };
  divider = codes "#564536";
  action = record {
    hover = codes "#3C3025";
    selected = codes "#513C2B";
    disabled = codes "#9C8D7D";
    disabled_background = codes "#34291F";
  };
  focus = codes "#E7BF84";
  shadow = codes "#0A0705";
  texture = record {
    dot = codes "244 226 194";
    wash = codes "200 151 85";
    glow = codes "160 202 188";
  };
}

abbrev pub fjord_light : FullPaletteScheme
fjord_light = record {
  primary = record {
    main = codes "#1F5C7A";
    light = codes "#5687A2";
    dark = codes "#16465F";
    contrast_text = codes "#F7FBFD";
  };
  secondary = record {
    main = codes "#47736F";
    light = codes "#78A09C";
    dark = codes "#2E5653";
    contrast_text = codes "#F7FBFD";
  };
  canvas = codes "#EDF3F7";
  paper = codes "#F8FBFD";
  app_bar = codes "#E1ECF2";
  overlay = codes "#F3F8FB";
  table_header = codes "#E7F0F5";
  text = record {
    primary = codes "#21313C";
    secondary = codes "#536975";
    disabled = codes "#75838D";
  };
  divider = codes "#C9D9E2";
  action = record {
    hover = codes "#E1EEF4";
    selected = codes "#D0E4EF";
    disabled = codes "#75838D";
    disabled_background = codes "#E1E8EC";
  };
  focus = codes "#16465F";
  shadow = codes "#16465F";
  texture = record {
    dot = codes "42 91 120";
    wash = codes "76 133 160";
    glow = codes "79 132 128";
  };
}

abbrev pub fjord_dark : FullPaletteScheme
fjord_dark = record {
  primary = record {
    main = codes "#94C9E3";
    light = codes "#C2E2F0";
    dark = codes "#639CB8";
    contrast_text = codes "#14212A";
  };
  secondary = record {
    main = codes "#A6D0C6";
    light = codes "#C7E5DD";
    dark = codes "#75A79B";
    contrast_text = codes "#14212A";
  };
  canvas = codes "#14212A";
  paper = codes "#1E2C36";
  app_bar = codes "#101B22";
  overlay = codes "#283944";
  table_header = codes "#1A2731";
  text = record {
    primary = codes "#EDF5F8";
    secondary = codes "#C3D2D9";
    disabled = codes "#83949B";
  };
  divider = codes "#364C59";
  action = record {
    hover = codes "#2A3D49";
    selected = codes "#365365";
    disabled = codes "#83949B";
    disabled_background = codes "#26343E";
  };
  focus = codes "#94C9E3";
  shadow = codes "#04080A";
  texture = record {
    dot = codes "214 237 247";
    wash = codes "101 160 192";
    glow = codes "166 208 198";
  };
}
