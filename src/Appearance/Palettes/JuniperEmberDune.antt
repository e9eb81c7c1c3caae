-- ===== src/Appearance/Palettes/JuniperEmberDune.antt =====
-- The palettes juniper, ember and dune of web/src/theme.ts.
use file_harbor.Base.{codes}
use file_harbor.Appearance.Colors.{FullPaletteScheme}

abbrev pub juniper_light : FullPaletteScheme
juniper_light = record {
  primary = record {
    main = codes "#216759";
    light = codes "#5D9482";
    dark = codes "#164D43";
    contrast_text = codes "#F7FBF8";
  };
  secondary = record {
    main = codes "#526B48";
    light = codes "#81987A";
    dark = codes "#394F31";
    contrast_text = codes "#F7FBF8";
  };
  canvas = codes "#EFF5F1";
  paper = codes "#F8FCF9";
  app_bar = codes "#E4EFE8";
  overlay = codes "#F3F8F4";
  table_header = codes "#E9F2EB";
  text = record {
    primary = codes "#24342D";
    secondary = codes "#576B61";
    disabled = codes "#78877F";
  };
  divider = codes "#CCDDD3";
  action = record {
    hover = codes "#E4F0E7";
    selected = codes "#D2E7DA";
    disabled = codes "#78877F";
    disabled_background = codes "#E2EAE5";
  };
  focus = codes "#164D43";
  shadow = codes "#164D43";
  texture = record {
    dot = codes "43 103 84";
    wash = codes "84 139 119";
    glow = codes "102 128 83";
  };
}

abbrev pub juniper_dark : FullPaletteScheme
juniper_dark = record {
  primary = record {
    main = codes "#9ED7C1";
    light = codes "#C4E8D6";
    dark = codes "#6FA990";
    contrast_text = codes "#15221C";
  };
  secondary = record {
    main = codes "#B8D4A5";
    light = codes "#D5E8C9";
    dark = codes "#87AA75";
    contrast_text = codes "#15221C";
  };
  canvas = codes "#15221C";
  paper = codes "#1F3028";
  app_bar = codes "#101B16";
  overlay = codes "#293C32";
  table_header = codes "#1A2A22";
  text = record {
    primary = codes "#EDF6F0";
    secondary = codes "#C3D4C8";
    disabled = codes "#85968B";
  };
  divider = codes "#385247";
  action = record {
    hover = codes "#2A4035";
    selected = codes "#365646";
    disabled = codes "#85968B";
    disabled_background = codes "#26372E";
  };
  focus = codes "#9ED7C1";
  shadow = codes "#040806";
  texture = record {
    dot = codes "215 239 225";
    wash = codes "113 169 144";
    glow = codes "184 212 165";
  };
}

abbrev pub ember_light : FullPaletteScheme
ember_light = record {
  primary = record {
    main = codes "#994C3C";
    light = codes "#C77A66";
    dark = codes "#733629";
    contrast_text = codes "#FDF9F7";
  };
  secondary = record {
    main = codes "#6D6650";
    light = codes "#999079";
    dark = codes "#504A38";
    contrast_text = codes "#FDF9F7";
  };
  canvas = codes "#F7F0ED";
  paper = codes "#FDF9F7";
  app_bar = codes "#F0E2DC";
  overlay = codes "#FBF4F1";
  table_header = codes "#F3E9E4";
  text = record {
    primary = codes "#382923";
    secondary = codes "#6C5B53";
    disabled = codes "#8B786F";
  };
  divider = codes "#E2CEC6";
  action = record {
    hover = codes "#F2E4DE";
    selected = codes "#EBCFC5";
    disabled = codes "#8B786F";
    disabled_background = codes "#EDE0DA";
  };
  focus = codes "#733629";
  shadow = codes "#733629";
  texture = record { dot = codes "139 66 52"; wash = codes "181 84 65"; glow = codes "148 104 67" };
}

abbrev pub ember_dark : FullPaletteScheme
ember_dark = record {
  primary = record {
    main = codes "#F0AE9B";
    light = codes "#F7CCBE";
    dark = codes "#C97969";
    contrast_text = codes "#251917";
  };
  secondary = record {
    main = codes "#D4C38B";
    light = codes "#E8DAB3";
    dark = codes "#A69661";
    contrast_text = codes "#251917";
  };
  canvas = codes "#251917";
  paper = codes "#33231F";
  app_bar = codes "#1E1412";
  overlay = codes "#402B26";
  table_header = codes "#2D1F1B";
  text = record {
    primary = codes "#F9F0EC";
    secondary = codes "#D7C4BD";
    disabled = codes "#9D8982";
  };
  divider = codes "#5B4039";
  action = record {
    hover = codes "#402C28";
    selected = codes "#563933";
    disabled = codes "#9D8982";
    disabled_background = codes "#382723";
  };
  focus = codes "#F0AE9B";
  shadow = codes "#0B0605";
  texture = record {
    dot = codes "248 220 211";
    wash = codes "204 121 105";
    glow = codes "212 195 139";
  };
}

abbrev pub dune_light : FullPaletteScheme
dune_light = record {
  primary = record {
    main = codes "#7A6242";
    light = codes "#A58B67";
    dark = codes "#5C482F";
    contrast_text = codes "#FCFAF5";
  };
  secondary = record {
    main = codes "#5D7269";
    light = codes "#8BA097";
    dark = codes "#41554D";
    contrast_text = codes "#FCFAF5";
  };
  canvas = codes "#F5F1E8";
  paper = codes "#FCFAF5";
  app_bar = codes "#ECE5D7";
  overlay = codes "#F9F6EE";
  table_header = codes "#F0EADF";
  text = record {
    primary = codes "#342D22";
    secondary = codes "#675E50";
    disabled = codes "#847A6B";
  };
  divider = codes "#DDD4C3";
  action = record {
    hover = codes "#EEE7D9";
    selected = codes "#E4D8C5";
    disabled = codes "#847A6B";
    disabled_background = codes "#E9E3D8";
  };
  focus = codes "#5C482F";
  shadow = codes "#5C482F";
  texture = record {
    dot = codes "112 92 62";
    wash = codes "151 127 88";
    glow = codes "105 133 122";
  };
}

abbrev pub dune_dark : FullPaletteScheme
dune_dark = record {
  primary = record {
    main = codes "#DBC49C";
    light = codes "#ECDDBD";
    dark = codes "#B49A70";
    contrast_text = codes "#211C15";
  };
  secondary = record {
    main = codes "#B6D1C5";
    light = codes "#D0E4DB";
    dark = codes "#86A99B";
    contrast_text = codes "#211C15";
  };
  canvas = codes "#211C15";
  paper = codes "#2D281F";
  app_bar = codes "#19150F";
  overlay = codes "#383126";
  table_header = codes "#282219";
  text = record {
    primary = codes "#F7F2E8";
    secondary = codes "#D4CABB";
    disabled = codes "#988D7D";
  };
  divider = codes "#50483A";
  action = record {
    hover = codes "#393227";
    selected = codes "#4C4231";
    disabled = codes "#988D7D";
    disabled_background = codes "#332C22";
  };
  focus = codes "#DBC49C";
  shadow = codes "#090705";
  texture = record {
    dot = codes "239 230 205";
    wash = codes "180 154 112";
    glow = codes "182 209 197";
  };
}
